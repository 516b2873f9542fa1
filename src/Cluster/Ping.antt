-- ===== src/Cluster/Ping.antt =====
-- What the varints and the server list ping of src/dsh_api/cluster.py keep.
use Prim.Native.Nat.{bit_and, bit_or}
use mathlib.Core.List.{append_assoc}
use native.Mathlib.Nat.{div-add-mod, pow-le-pow_right}
use native.Mathlib.Numerals.{towards_suc}
use dsh_api.Prelude.{
  ℕ, zero, suc, ◌+◌, ◌*◌, ◌/◌, ◌%◌, ◌^◌, ◌≤◌, ◌<◌, ◌≡◌, refl, ap, Bool, true, List, [], ◌∷◌, ◌++◌,
  length, length-append, All, eqb, arith, Bool-cases, inl, inr, ◌&&◌,
}
use dsh_api.Action.{ok}
use dsh_api.Cluster.Varint.{
  read_from, read_varint, varint_from, varint, packet, receive, ping_reply,
}

-- Two functions that agree below a bound, by evaluation.
module _ (f g : ℕ → ℕ) where
  same_below : ℕ → Bool
  same_below zero = true
  same_below (suc n) = eqb (f n) (g n) && same_below n

  same_below→eq : (n i : ℕ) → same_below n ≡ true → i < n → f i ≡ g i
  unfolding same_below
  same_below→eq zero i h below = absurd (omega arith)
  same_below→eq (suc n) i h below = ground (arith, same_below→eq n i)

low_group : (b : ℕ) → b < 128 → bit_and b 0x7f ≡ b
unfolding same_below
low_group b = same_below→eq (λ i. bit_and i 0x7f) (λ i. i) 128 b refl

no_flag : (b : ℕ) → b < 128 → bit_and b 0x80 ≡ 0
unfolding same_below
no_flag b = same_below→eq (λ i. bit_and i 0x80) (λ i. 0) 128 b refl

flagged_group : (b : ℕ) → b < 128 → bit_and (bit_or b 0x80) 0x7f ≡ b
unfolding same_below
flagged_group b = same_below→eq (λ i. bit_and (bit_or i 0x80) 0x7f) (λ i. i) 128 b refl

flag_of_group : (b : ℕ) → b < 128 → bit_and (bit_or b 0x80) 0x80 ≡ 128
unfolding same_below
flag_of_group b = same_below→eq (λ i. bit_and (bit_or i 0x80) 0x80) (λ i. 128) 128 b refl

next_place : (shift : ℕ) → 2 ^ (shift + 7) ≡ 128 * 2 ^ shift
next_place shift = simp towards_suc (omega arith)

-- A value is its lowest group and seven places further on all others.
groups :
    (v value shift : ℕ)
    → value + v * 2 ^ shift ≡ value + v % 128 * 2 ^ shift + v / 128 * 2 ^ (shift + 7)
groups v value shift = omega (
  arith,
  ap (λ (t : ℕ). t * 2 ^ shift) (div-add-mod v 128),
  ap (λ (t : ℕ). v / 128 * t) (next_place shift),
)

-- One round of the loop, at a last byte and at a byte with the flag.
read_last :
    (b value shift : ℕ) (rest : List ℕ)
    → b < 128
    → read_from value shift (b ∷ rest) ≡ ok (value + b * 2 ^ shift, rest)
unfolding read_from
read_last b value shift rest small = rw (low_group b small, no_flag b small) refl

read_more :
    (b value shift : ℕ) (rest : List ℕ)
    → b < 128
    → shift + 7 ≤ 35
    → read_from value shift (bit_or b 0x80 ∷ rest)
      ≡ read_from (value + b * 2 ^ shift) (shift + 7) rest
unfolding read_from
read_more b value shift rest small room =
    rw (flagged_group b small, flag_of_group b small) (ground arith)

-- The groups of a value below 2 ^ 42, from the place `shift` on.
read_from-varint_from :
    (left fuel v value shift : ℕ) (rest : List ℕ)
    → v < fuel
    → v < 128 ^ suc left
    → shift + 7 * left ≡ 35
    → read_from value shift (varint_from fuel v ++ rest) ≡ ok (value + v * 2 ^ shift, rest)
unfolding varint_from
read_from-varint_from left zero v value shift rest enough bound place = absurd (omega arith)
read_from-varint_from zero (suc fuel) v value shift rest enough bound place =
    ground (arith, read_last v value shift rest)
read_from-varint_from (suc left) (suc fuel) v value shift rest enough bound place =
    elim (Bool-cases (eqb (v / 128) 0)) [
      | inl last ↦ ground (arith, read_last v value shift rest)
      | inr more ↦ ground (
        arith,
        groups v value shift,
        read_more (v % 128) value shift (varint_from fuel (v / 128) ++ rest),
        read_from-varint_from left fuel (v / 128) (value + v % 128 * 2 ^ shift) (shift + 7) rest,
      )
    ]

-- A varint of a value below 2 ^ 42 is read back, and what follows it is left.
pub read_varint-varint :
    (value : ℕ) (rest : List ℕ)
    → value < 2 ^ 42
    → read_varint (varint value ++ rest) ≡ ok (value, rest)
unfolding read_varint varint
read_varint-varint value rest bound =
    ground (arith, read_from-varint_from 5 (suc value) value 0 0 rest)

-- `recv` of as many bytes as a text has.
receive-append : (text rest : List ℕ) → receive (length text) (text ++ rest) ≡ text
unfolding receive
receive-append [] rest = refl
receive-append (b ∷ text) rest = ap (◌∷◌ b) (receive-append text rest)

-- The body of a packet with a text.
abbrev pub framed : ℕ → List ℕ → List ℕ
framed packet_id status = varint packet_id ++ (varint (length status) ++ status)

text_shorter : (packet_id : ℕ) (status : List ℕ) → length status ≤ length (framed packet_id status)
text_shorter packet_id status = omega (
  arith,
  length-append (varint (length status)) status,
  length-append (varint packet_id) (varint (length status) ++ status),
)

-- The text that a server packs into a packet, of an id and a length below 2 ^ 42, is what the
-- ping reads, whatever follows.
pub ping_reply-packet :
    (packet_id : ℕ) (status rest : List ℕ)
    → packet_id < 2 ^ 42
    → length (framed packet_id status) < 2 ^ 42
    → ping_reply (packet packet_id (varint (length status) ++ status) ++ rest) ≡ ok status
unfolding ping_reply packet
ping_reply-packet packet_id status rest small bound =
    rw
      (
        append_assoc (varint (length (framed packet_id status))) (framed packet_id status) rest,
        read_varint-varint (length (framed packet_id status)) ((framed packet_id status) ++ rest)
            bound,
        append_assoc (varint packet_id) (varint (length status) ++ status) rest,
        read_varint-varint packet_id ((varint (length status) ++ status) ++ rest) small,
        append_assoc (varint (length status)) status rest,
        read_varint-varint (length status) (status ++ rest)
            (omega (arith, bound, text_shorter packet_id status)),
      )
      (ap ok (receive-append status rest))

low_bits : (b : ℕ) → b < 256 → bit_and b 0x7f ≡ b % 128
unfolding same_below
low_bits b = same_below→eq (λ i. bit_and i 0x7f) (λ i. i % 128) 256 b refl

abbrev pub IsByte : ℕ → Type 0
IsByte b = b < 256

read_from-bounds :
    (bytes : List ℕ) (value shift v : ℕ) (rest : List ℕ)
    → All IsByte bytes
    → value < 2 ^ shift
    → shift ≤ 35
    → read_from value shift bytes ≡ ok (v, rest)
    → (v < 2 ^ 42) × (shift + 7 * length bytes ≤ 42 + 7 * length rest)
unfolding read_from
read_from-bounds [] value shift v rest all below room done = absurd (ground arith)
read_from-bounds (b ∷ bytes) value shift v rest all below room done =
    let fits : value + b % 128 * 2 ^ shift < 2 ^ (shift + 7) =
      rw (next_place shift) (grind arith) in
    elim (Bool-cases (eqb (bit_and b 0x80) 0)) [
      | inl last ↦ ground (
        arith,
        low_bits b all.0,
        pow-le-pow_right {n = 2} (omega arith) {i = shift + 7} {j = 42} (omega arith),
        done,
      )
      | inr more ↦ ground (
        arith,
        low_bits b all.0,
        read_from-bounds bytes (value + b % 128 * 2 ^ shift) (shift + 7) v rest all.1,
        done,
      )
    ]

-- A varint that is read from bytes is below 2 ^ 42 and takes six bytes at most.
pub read_varint-bounds :
    (bytes : List ℕ) (v : ℕ) (rest : List ℕ)
    → All IsByte bytes
    → read_varint bytes ≡ ok (v, rest)
    → (v < 2 ^ 42) × (length bytes ≤ 6 + length rest)
unfolding read_varint
read_varint-bounds bytes v rest all done =
    let (below, short) = read_from-bounds bytes 0 0 v rest all (omega arith) (omega arith) done in
    (below, omega arith)
