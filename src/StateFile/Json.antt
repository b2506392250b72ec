-- ===== src/StateFile/Json.antt =====
-- JSON values, the trees of nodes (GNode) that src/json.c makes of them, and walks over such trees.
use cc_oci_runtime.Prelude.{
  suc, Bool, true, false, Option, none, some, ◌∷◌, ℤ, pos, negsuc, Bytes, codes, decimal,
}

-- A value of a JSON document. A floating-point number is its text in the format "%f".
pub data Scalar : Type 0 where
  text : Bytes → Scalar
  int64 : ℤ → Scalar
  boolean : Bool → Scalar
  double : Bytes → Scalar

-- JSON_NODE_OBJECT, JSON_NODE_ARRAY, JSON_NODE_VALUE and JSON_NODE_NULL of json-glib. The members of
-- an object are in the order in which they were added.
mutual
  pub data Json : Type 0 where
    object : Members → Json
    array : Elements → Json
    value : Scalar → Json
    null : Json

  pub data Members : Type 0 where
    no_member : Members
    member : Bytes → Json → Members → Members

  pub data Elements : Type 0 where
    no_element : Elements
    element : Json → Elements → Elements

-- A GNode: its data, which may be NULL, and its children.
mutual
  pub data Node : Type 0 where
    node : Option Bytes → Nodes → Node

  pub data Nodes : Type 0 where
    nil : Nodes
    cons : Node → Nodes → Nodes

abbrev pub leaf : Option Bytes → Node
leaf s = node s nil

abbrev pub append_nodes : Nodes → Nodes → Nodes
append_nodes nil ns = ns
append_nodes (cons n ms) ns = cons n (append_nodes ms ns)

-- "%ld" of an integer.
unfoldable pub show_int : ℤ → Bytes
show_int (pos n) = decimal n
show_int (negsuc n) = b'-' ∷ decimal (suc n)

unfoldable pub json_string : Scalar → Bytes
unfolding show_int
json_string (text s) = s
json_string (int64 n) = show_int n
json_string (boolean true) = codes "true"
json_string (boolean false) = codes "false"
json_string (double s) = s

-- The end that an element of an array gets.
abbrev pub array_end : Bool → Nodes
array_end true = cons (leaf none) nil
array_end false = nil

-- The nodes that the walk appends below the node that it is given. The members of an object become
-- siblings of an empty node, so the objects of an array become one row.
unfoldable mutual
  pub parse_aux : Json → Bool → Nodes
  parse_aux (object ms) parsing_array = cons (leaf none) (parse_members ms)
  parse_aux (array es) parsing_array = parse_elements es
  parse_aux (value v) parsing_array =
      cons (node (some (json_string v)) (array_end parsing_array)) nil
  parse_aux null parsing_array = nil

  pub parse_members : Members → Nodes
  parse_members no_member = nil
  parse_members (member key v ms) = cons (node (some key) (parse_aux v false)) (parse_members ms)

  pub parse_elements : Elements → Nodes
  parse_elements no_element = nil
  parse_elements (element v es) = append_nodes (parse_aux v true) (parse_elements es)

-- The tree below a node that names the file.
unfoldable pub json_parse : Bytes → Json → Node
json_parse filename root = node (some filename) (parse_aux root false)

abbrev pub children : Node → Nodes
children (node _ ns) = ns

abbrev pub data_of : Node → Option Bytes
data_of (node s _) = s

-- The data of the first child, where there is one.
abbrev pub first_data : Node → Option Bytes
first_data (node _ nil) = none
first_data (node _ (cons (node s _) _)) = s

-- g_node_children_foreach with the data that the callbacks share as state.
module _ {ℓ} {S : Type ℓ} where
  unfoldable pub foreach : (Node → S → S) → Nodes → S → S
  foreach f nil s = s
  foreach f (cons n ns) s = foreach f ns (f n s)
