-- ===== src/Proxy/Request.antt =====
-- The requests of src/proxy.c, as JSON, and set_env_home of src/oci.c.
use cc_oci_runtime.Prelude.{
  ℕ, Bool, false, ◌||◌, Option, none, some, List, [], ◌∷◌, ◌++◌, ◌==◌, if◌then◌else◌, Bytes, codes,
  cut, decimal, ◌>>=◌, length, take, str_eq, pos,
}
use cc_oci_runtime.Container.Types.{Process, Proxy}
use cc_oci_runtime.StateFile.Json.{
  Json, object, array, value, null, text, int64, boolean, Members, no_member, member, Elements,
  no_element, element,
}
use cc_oci_runtime.StateFile.Write.{strings, vector}

abbrev pub string : Bytes → Json
string s = value (text s)

-- A NULL string is written as null.
abbrev pub string_or_null : Option Bytes → Json
string_or_null none = null
string_or_null (some s) = string s

abbrev pub request : Bytes → Members → Json
request proxy_cmd data' =
    object (member (codes "id") (string proxy_cmd) (member (codes "data") (object data') no_member))

unfoldable pub hello_request : Proxy → Bytes → Json
hello_request proxy container_id = request (codes "hello") (
    member (codes "containerId") (string container_id) (
      member (codes "ctlSerial") (string_or_null proxy.agent_ctl_socket) (
        member (codes "ioSerial") (string_or_null proxy.agent_tty_socket)
          (member (codes "console") (string_or_null proxy.vm_console_socket) no_member))))

unfoldable pub attach_request : Bytes → Json
attach_request container_id =
    request (codes "attach") (member (codes "containerId") (string container_id) no_member)

unfoldable pub bye_request : Bytes → Json
bye_request container_id =
    request (codes "bye") (member (codes "containerId") (string container_id) no_member)

-- One stream for a terminal, two otherwise.
unfoldable pub allocate_io_request : Bool → Json
allocate_io_request tty =
    request (codes "allocateIO")
      (member (codes "nStreams") (value (int64 (pos (if tty then 1 else 2)))) no_member)

unfoldable pub hyper_request : Bytes → Json → Json
hyper_request cmd payload =
    request (codes "hyper")
      (member (codes "hyperName") (string cmd) (member (codes "data") payload no_member))

-- The signal is written as a string.
unfoldable pub kill_payload : Bytes → ℕ → Json
kill_payload container signum = object (
    member (codes "container") (string container)
      (member (codes "signal") (string (decimal signum)) no_member))

-- The variables as objects; `none` if one has no '='.
unfoldable pub env_json : List Bytes → Option Elements
env_json [] = some no_element
env_json (p ∷ ps) = do
  rest ← env_json ps
  let (var, e) = cut b'=' p
  v ← e
  let variable =
      object (member (codes "value") (string v) (member (codes "env") (string var) no_member))
  some (element variable rest)

abbrev process_start : Process → Members → Members
process_start p rest = member (codes "terminal") (value (boolean p.terminal)) (
    member (codes "stdio") (value (int64 p.stdio_stream))
      (member (codes "stderr") (value (int64 p.stderr_stream)) rest))

abbrev process_end : Process → Elements → Members
process_end p envs =
    member (codes "args") (array (strings (vector p.args)))
      (member (codes "envs") (array envs) no_member)

abbrev new_process : Process → Elements → Json
new_process p envs =
    object (process_start p (member (codes "workdir") (string p.cwd) (process_end p envs)))

unfoldable pub newcontainer_payload : Process → Elements → Bytes → Bytes → Bytes → Json
newcontainer_payload p envs container_id rootfs image = object (
    member (codes "id") (string container_id) (
      member (codes "rootfs") (string rootfs) (
        member (codes "image") (string image) (
          member (codes "restartPolicy") (string (codes "never")) (
            member (codes "initialize") (value (boolean false))
              (member (codes "process") (new_process p envs) no_member))))))

abbrev workdir : Bytes → Members → Members
workdir [] rest = rest
workdir (c ∷ s) rest = member (codes "workdir") (string (c ∷ s)) rest

unfoldable pub exec_payload : Process → Elements → Bytes → Json
exec_payload p envs container_id = object (
    member (codes "container") (string container_id) (
      member (codes "process") (object (process_start p (workdir p.cwd (process_end p envs))))
        no_member))

-- The entries of a passwd file, as fgetpwent gives them: a user's id and directory. `none` is a file
-- that cannot be opened.
abbrev pub Passwd : Type 0
Passwd = Option (List (ℕ × Bytes))

find_home : ℕ → List (ℕ × Bytes) → Option Bytes
find_home uid [] = none
find_home uid (e ∷ entries) = if e.0 == uid then some e.1 else find_home uid entries

unfoldable pub get_user_home_dir : ℕ → Passwd → Option Bytes
unfolding find_home
get_user_home_dir uid none = none
get_user_home_dir uid (some entries) = find_home uid entries

abbrev pub home_prefix : Bytes
home_prefix = codes "HOME="

-- Whether a variable of the list is HOME.
unfoldable pub has_home : List Bytes → Bool
has_home [] = false
has_home (var ∷ vars) = str_eq (take (length home_prefix) var) home_prefix || has_home vars

-- The directory is looked up in /etc/passwd of the container, then in the stateless file.
unfoldable pub home_dir : ℕ → Passwd → Passwd → Bytes
unfolding get_user_home_dir
home_dir uid passwd stateless_passwd = elim (get_user_home_dir uid passwd) [
  | some dir ↦ dir
  | none ↦ elim (get_user_home_dir uid stateless_passwd) [ some dir ↦ dir | none ↦ codes "/" ]
]

unfoldable pub set_env_home : Passwd → Passwd → Process → Process
unfolding has_home home_dir
set_env_home passwd stateless_passwd p = elim p.env [
  | none ↦ p
  | some env ↦
      if has_home env
      then p
      else record p { env = some ((home_prefix ++ home_dir p.uid passwd stateless_passwd) ∷ env) }
]
