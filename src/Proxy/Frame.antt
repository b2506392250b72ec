-- ===== src/Proxy/Frame.antt =====
-- cc_proxy_msg_write of src/proxy.c: a message on its way into the socket.
use cc_oci_runtime.Prelude.{
  ℕ, suc, ◌%◌, ◌^◌, Bool, true, false, List, [], ◌∷◌, ◌++◌, leb, ltb, if◌then◌else◌, Bytes, take,
}
use cc_oci_runtime.Shim.Endian.{set_big_endian_32}

-- What a call of g_io_channel_write_chars or g_io_channel_flush comes to. A call that gives
-- G_IO_STATUS_AGAIN or G_IO_STATUS_ERROR may have taken some of the bytes.
pub data IoStatus : Type 0 where
  normal : IoStatus
  again error : ℕ → IoStatus

-- How the function ends: the reply is waited for, or the watch is dropped with the main loop still
-- running. `waiting` is a call that has not come back. The bytes are those the channel has taken.
pub data Writing : Type 0 where
  awaits_reply given_up waiting : Bytes → Writing

-- A byte that begins a character of a text in UTF-8.
abbrev pub begins_character : ℕ → Bool
begins_character c = if ltb c 128 then true else leb 192 c

-- g_utf8_strlen on valid UTF-8: the number of characters.
unfoldable pub utf8_strlen : Bytes → ℕ
utf8_strlen [] = 0
utf8_strlen (c ∷ s) = let rest = utf8_strlen s in if begins_character c then suc rest else rest

abbrev pub after : Bytes → Writing → Writing
after bs (awaits_reply cs) = awaits_reply (bs ++ cs)
after bs (given_up cs) = given_up (bs ++ cs)
after bs (waiting cs) = waiting (bs ++ cs)

-- One of the three loops, which ask again with the same bytes as long as the status is
-- G_IO_STATUS_AGAIN, and what follows it.
unfoldable pub retry : List IoStatus → Bytes → (List IoStatus → Writing) → Writing
retry [] bytes next = waiting []
retry (normal ∷ answers) bytes next = after bytes (next answers)
retry (again n ∷ answers) bytes next = after (take n bytes) (retry answers bytes next)
retry (error n ∷ answers) bytes next = given_up (take n bytes)

-- The first eight bytes of struct proxy_msg. The length is a number of characters.
unfoldable pub proxy_header : Bytes → Bytes
unfolding utf8_strlen
proxy_header msg_to_send =
    set_big_endian_32 (utf8_strlen msg_to_send % 2 ^ 32) ++ (0 ∷ 0 ∷ 0 ∷ 0 ∷ [])

-- `hung_up`: the condition is G_IO_HUP.
unfoldable pub msg_write : Bool → Bytes → List IoStatus → Writing
unfolding proxy_header retry utf8_strlen
msg_write true msg_to_send answers = given_up []
msg_write false msg_to_send answers = retry answers (proxy_header msg_to_send) (λ answers.
    retry answers (take (utf8_strlen msg_to_send) msg_to_send)
      (λ answers. retry answers [] (λ answers. awaits_reply [])))
