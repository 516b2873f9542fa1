-- ===== src/Cluster/Varint.antt =====
-- The varints and the server list ping of src/dsh_api/cluster.py. A socket is the list of the bytes
-- that it still delivers before it is closed; a byte is a number below 256.
use Prim.Native.Nat.{bit_and, bit_or}
use dsh_api.Prelude.{
  ℕ, zero, suc, ◌+◌, ◌*◌, ◌/◌, ◌%◌, ◌^◌, List, [], ◌∷◌, ◌++◌, length, ltb, eqb, if◌then◌else◌,
}
use dsh_api.Action.{Result, ok, err, other, value_error}

-- What the reads leave of the socket beside what they return.
abbrev pub Read : Type 0 → Type 0
Read A = Result (A × List ℕ)

-- `_read_varint`, from `value` and `shift` on. The bits of `value` lie below `shift`, so that `|=`
-- adds.
unfoldable pub read_from : (value shift : ℕ) → List ℕ → Read ℕ
read_from value shift [] = err (other "ConnectionError" "connection closed mid-varint")
read_from value shift (byte ∷ rest) =
    let more = read_from (value + bit_and byte 0x7f * 2 ^ shift) (shift + 7) rest in
    if eqb (bit_and byte 0x80) 0
    then ok (value + bit_and byte 0x7f * 2 ^ shift, rest)
    else if ltb 35 (shift + 7)
    then err (value_error "varint too long")
    else more

unfoldable pub read_varint : List ℕ → Read ℕ
unfolding read_from
read_varint = read_from 0 0

-- `_varint`: `value & 0x7F` is the remainder by 128, and `value >>= 7` the quotient. A value has no
-- more groups than it says.
unfoldable pub varint_from : (fuel value : ℕ) → List ℕ
varint_from zero value = []
varint_from (suc fuel) value =
    let more = bit_or (value % 128) 0x80 ∷ varint_from fuel (value / 128) in
    if eqb (value / 128) 0 then value % 128 ∷ [] else more

unfoldable pub varint : ℕ → List ℕ
unfolding varint_from
varint value = varint_from (suc value) value

-- `_packet`
unfoldable pub packet : ℕ → List ℕ → List ℕ
unfolding varint
packet packet_id payload = let body = varint packet_id ++ payload in varint (length body) ++ body

-- `struct.pack(">H", port)`
abbrev pub pack_port : ℕ → List ℕ
pack_port port = port / 256 ∷ port % 256 ∷ []

-- The handshake and the status request, for the bytes of the host.
unfoldable pub ping_request : (host : List ℕ) (port : ℕ) → List ℕ
unfolding packet varint
ping_request host port =
    packet 0x00 (varint 0 ++ varint (length host) ++ host ++ pack_port port ++ varint 1)
    ++ packet 0x00 []

-- The loop over `recv`: as many bytes as asked for, or what there is.
unfoldable pub receive : ℕ → List ℕ → List ℕ
receive zero bytes = []
receive (suc n) [] = []
receive (suc n) (byte ∷ rest) = byte ∷ receive n rest

abbrev pub then_read : {A B : Type 0} → Read A → (A → List ℕ → Result B) → Result B
then_read (ok (a, rest)) f = f a rest
then_read (err e) f = err e

-- What `server_list_ping` hands to `json.loads`.
unfoldable pub ping_reply : List ℕ → Result (List ℕ)
unfolding read_varint receive
ping_reply bytes = then_read (read_varint bytes) λ packet_length after_length.
    then_read (read_varint after_length)
      λ packet_id after_id. then_read (read_varint after_id) λ count rest. ok (receive count rest)
