-- ===== src/BlockWatcher/Storage/File/LastBlock.antt =====
-- src/services/blockwatcher/storage.rs: writing and reading the file of the last processed block.
use openzeppelin_monitor.Prelude.{
  ℕ, zero, suc, ◌+◌, ◌*◌, ◌/◌, ◌%◌, ◌≤◌, ◌<◌, ◌≡◌, refl, sym, ap, ◌∙◌, subst, true, [], ◌∷◌, some,
  String, ltb, leb, arith, All, Bool-cases, inl, inr,
}
use openzeppelin_monitor.Prelude.Dict.{lookup, insert, lookup-insert_self}
use openzeppelin_monitor.Prelude.Result.{Result, ok}
use openzeppelin_monitor.Models.Parse.{to_digit, u64_max, accumulate, from_str_radix}
use openzeppelin_monitor.BlockWatcher.Storage.{StorageError}
use openzeppelin_monitor.BlockWatcher.Storage.File.{
  Files, Text, Io, Codec, trim_start, trim_end, trim, digits_from, to_string, last_block_path,
  read_file, write_file, get_last_processed_block, save_last_processed_block,
}

record IsDigit (c : ℕ) : Type 0 where
  from : 48 ≤ c
  to : c ≤ 57

to_digit_lem : (d : ℕ) → d < 10 → to_digit 10 (48 + d) ≡ some d
unfolding to_digit
to_digit_lem d h = ground (arith, h)

-- One more digit.
accumulate_digit :
    (n d : ℕ) (cs : Text)
    → d < 10
    → n * 10 + d ≤ 18446744073709551615
    → accumulate 10 n ((48 + d) ∷ cs) ≡ accumulate 10 (n * 10 + d) cs
unfolding accumulate
accumulate_digit n d cs h le =
    let within : leb (n * 10 + d) u64_max ≡ true = ground (arith, le) in
    rw (to_digit_lem d h, accumulate, within) refl

-- The digits of a number are put in front, and read as the number.
accumulate-digits_from :
    (fuel n : ℕ) (acc : Text)
    → n < fuel
    → n ≤ 18446744073709551615
    → accumulate 10 0 (digits_from fuel n acc) ≡ accumulate 10 n acc
unfolding digits_from
accumulate-digits_from zero n acc h le = absurd (omega (arith, h))
accumulate-digits_from (suc fuel) n acc h le = elim (Bool-cases (ltb n 10)) [
  | inl e ↦ rw e (
      accumulate_digit 0 n acc (ground (arith, e)) (omega (arith, le))
      ∙ ap (λ k. accumulate 10 k acc) (omega arith))
  | inr e ↦ rw e (
      accumulate-digits_from fuel (n / 10) ((48 + n % 10) ∷ acc) (ground (arith, e, h))
        (omega (arith, le))
      ∙ (accumulate_digit (n / 10) (n % 10) acc (omega arith) (omega (arith, le))
          ∙ ap (λ k. accumulate 10 k acc) (omega arith)))
]

digits_from-All : (fuel n : ℕ) (acc : Text) → All IsDigit acc → All IsDigit (digits_from fuel n acc)
unfolding digits_from
digits_from-All zero n acc h = h
digits_from-All (suc fuel) n acc h = elim (Bool-cases (ltb n 10)) [
  | inl e ↦ rw e (record { from = omega arith; to = ground (arith, e) }, h)
  | inr e ↦ rw e (
      digits_from-All fuel (n / 10) ((48 + n % 10) ∷ acc)
        (record { from = omega arith; to = omega arith }, h))
]

trim_start-digits : (t : Text) → All IsDigit t → trim_start t ≡ t
trim_start-digits [] h = refl
trim_start-digits (c ∷ cs) (d, h) = ground (arith, d.from, d.to)

trim_end-digits : (t : Text) → All IsDigit t → trim_end t ≡ t
trim_end-digits [] h = refl
trim_end-digits (c ∷ []) (d, h) = ground (arith, d.from, d.to)
trim_end-digits (c ∷ e ∷ cs) (d, h) = rw (trim_end-digits (e ∷ cs) h) refl

-- A number that a text begins with is no sign.
from_str_radix-digits :
    (c : ℕ) (cs : Text) → IsDigit c → from_str_radix 10 (c ∷ cs) ≡ accumulate 10 0 (c ∷ cs)
unfolding from_str_radix
from_str_radix-digits c [] d = ground (arith, d.from)
from_str_radix-digits c (e ∷ cs) d = ground (arith, d.from)

digits_from_cons :
    (fuel n : ℕ) (acc : Text) → (c : ℕ) × (cs : Text) × (digits_from (suc fuel) n acc ≡ c ∷ cs)
unfolding digits_from
digits_from_cons zero n acc = elim (Bool-cases (ltb n 10)) [
  | inl e ↦ (48 + n, acc, rw e refl)
  | inr e ↦ (48 + n % 10, acc, rw e refl)
]
digits_from_cons (suc fuel) n acc = elim (Bool-cases (ltb n 10)) [
  | inl e ↦ (48 + n, acc, rw e refl)
  | inr e ↦
      let (c, cs, there) = digits_from_cons fuel (n / 10) ((48 + n % 10) ∷ acc) in
      (c, cs, rw e there)
]

parse_digits :
    (t : Text) (c : ℕ) (cs : Text)
    → t ≡ c ∷ cs
    → All IsDigit t
    → from_str_radix 10 (trim t) ≡ accumulate 10 0 t
parse_digits t c cs e h =
    ap (λ u. from_str_radix 10 (trim_end u)) (trim_start-digits t h)
    ∙ (ap (from_str_radix 10) (trim_end-digits t h)
        ∙ subst (λ u. All IsDigit u → from_str_radix 10 u ≡ accumulate 10 0 u) (sym e)
            (λ (d, _). from_str_radix-digits c cs d) h)

from_str_radix-to_string :
    (n : ℕ) → n ≤ 18446744073709551615 → from_str_radix 10 (trim (to_string n)) ≡ some n
unfolding to_string accumulate
from_str_radix-to_string n le =
    let (c, cs, e) = digits_from_cons n n [] in
    parse_digits (to_string n) c cs e (digits_from-All (suc n) n [] tt)
    ∙ accumulate-digits_from (suc n) n [] (omega arith) le

module _ (io : Io) (codec : Codec) (dir id : String) where
  get_last_processed_block-stored :
      (n : ℕ) (t : Text) (fs : Files)
      → io.can_read (last_block_path dir id) ≡ true
      → lookup (last_block_path dir id) fs ≡ some t
      → from_str_radix 10 (trim t) ≡ some n
      → get_last_processed_block io codec dir id fs ≡ (ok (some n), fs)
  unfolding get_last_processed_block read_file
  get_last_processed_block-stored n t fs readable there parsed =
      ground (arith, readable, there, parsed)

  save_last_processed_block-stores :
      (n : ℕ) (fs : Files)
      → io.can_write (last_block_path dir id) ≡ true
      → save_last_processed_block io codec dir id n fs
        ≡ (ok tt, insert (last_block_path dir id) (to_string n) fs)
  unfolding save_last_processed_block write_file
  save_last_processed_block-stores n fs writable = rw writable refl

-- Where the file can be written and read: saving a 64-bit number succeeds, and the number is then
-- the last processed block, whatever stood there before.
pub get_last_processed_block_lem :
    (io : Io) (codec : Codec) (dir id : String) (n : ℕ) (fs : Files)
    → io.can_write (last_block_path dir id) ≡ true
    → io.can_read (last_block_path dir id) ≡ true
    → n ≤ 18446744073709551615
    → let saved = save_last_processed_block io codec dir id n fs in
      (saved.0 ≡ ok tt)
      × (get_last_processed_block io codec dir id saved.1 ≡ (ok (some n), saved.1))
get_last_processed_block_lem io codec dir id n fs writable readable le =
    let path = last_block_path dir id in
    subst
      (λ (r : Result StorageError (Unit {0}) × Files).
        (r.0 ≡ ok tt) × (get_last_processed_block io codec dir id (r.1) ≡ (ok (some n), r.1)))
      (sym (save_last_processed_block-stores io codec dir id n fs writable))
      (
        refl,
        get_last_processed_block-stored io codec dir id n (to_string n)
            (insert path (to_string n) fs) readable (lookup-insert_self path (to_string n) fs)
            (from_str_radix-to_string n le),
      )
