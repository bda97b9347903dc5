-- ===== src/Ids/RoundTrip.antt =====
-- ids.py: the number of an id can be read back, so ids of different numbers differ.
use Prim.Native.Nat.{◌/◌, ◌%◌}
use Prim.Native.Char.{code}
use Prim.Native.String.{[], ◌∷◌, ◌++◌ as text_append}
use daemon_supply_chain.Common.{
  ℕ, zero, suc, ◌+◌, ◌-◌, ◌*◌, ◌≤◌, String, ◌≡◌, refl, ap, sym, ◌∙◌, arith, inl, inr, nat_eq, true,
  if◌then◌else◌, Bool-cases,
}
use Prim.Native.String.append
use daemon_supply_chain.Ids.{
  digit, decimal, str_number, text_length, zeros, zfill, id_padding_length, format_id,
}

-- The number that a text of digits reads, behind a number that was read.
read : ℕ → String → ℕ
read v [] = v
read v (c ∷ s) = read (v * 10 + (code c - 48)) s

digit-code : (d : ℕ) → d ≤ 9 → code (digit d) - 48 ≡ d
unfolding digit
digit-code zero h = refl
digit-code (suc zero) h = refl
digit-code (suc (suc zero)) h = refl
digit-code (suc (suc (suc zero))) h = refl
digit-code (suc (suc (suc (suc zero)))) h = refl
digit-code (suc (suc (suc (suc (suc zero))))) h = refl
digit-code (suc (suc (suc (suc (suc (suc zero)))))) h = refl
digit-code (suc (suc (suc (suc (suc (suc (suc zero))))))) h = refl
digit-code (suc (suc (suc (suc (suc (suc (suc (suc zero)))))))) h = refl
digit-code (suc (suc (suc (suc (suc (suc (suc (suc (suc zero))))))))) h = refl
digit-code (suc (suc (suc (suc (suc (suc (suc (suc (suc (suc n)))))))))) h = omega (arith, h)

read-decimal : (fuel n : ℕ) (s : String) → n ≤ fuel → read 0 (decimal fuel n s) ≡ read n s
unfolding read decimal
read-decimal zero n s h = ap (λ v. read v s) (omega (arith, h, digit-code (n % 10) (omega arith)))
read-decimal (suc fuel) n s h = elim (Bool-cases (nat_eq (n / 10) 0)) [
  | inl small ↦
      rw small (ap (λ v. read v s) (ground (arith, small, digit-code (n % 10) (omega arith))))
  | inr large ↦ rw large (
      read-decimal fuel (n / 10) (digit (n % 10) ∷ s) (ground (arith, h))
      ∙ ap (λ v. read v s) (ground (arith, digit-code (n % 10) (omega arith))))
]

read-zeros : (k : ℕ) (s : String) → read 0 (zeros k s) ≡ read 0 s
unfolding read zeros
read-zeros zero s = refl
read-zeros (suc k) s = ap (λ v. read v (zeros k s)) (omega arith) ∙ read-zeros k s

-- What is behind a prefix; nothing where the text does not begin with it.
behind : String → String → String
behind [] s = s
behind (c ∷ p) [] = []
behind (c ∷ p) (d ∷ s) = let rest = behind p s in if nat_eq (code c) (code d) then rest else []

behind-append : (p s : String) → behind p (text_append p s) ≡ s
unfolding behind
behind-append [] s = append.nil s
behind-append (c ∷ p) s =
    ap (behind (c ∷ p)) (append.cons c p s)
    ∙ (let same : nat_eq (code c) (code c) ≡ true = ground arith in rw same (behind-append p s))

-- The number behind a prefix and its dash.
unfoldable pub id_number : String → String → ℕ
unfolding read behind
id_number prefix id = read 0 (behind "-" (behind prefix id))

-- From an id the number that it was made of is read back, as the decimal number behind the prefix
-- and its dash, also where it has more digits than the padding.
pub id_number-format_id :
    (prefix : String) (number : ℕ) → id_number prefix (format_id prefix number) ≡ number
unfolding id_number format_id zfill str_number
id_number-format_id prefix number =
    ap (λ s. read 0 (behind "-" s)) (behind-append prefix _)
    ∙ read-zeros (id_padding_length - text_length (str_number number)) (str_number number)
    ∙ read-decimal number number "" (omega arith)

pub format_id-injective :
    (prefix : String) (m n : ℕ) → format_id prefix m ≡ format_id prefix n → m ≡ n
format_id-injective prefix m n h =
    sym (id_number-format_id prefix m) ∙ ap (id_number prefix) h ∙ id_number-format_id prefix n
