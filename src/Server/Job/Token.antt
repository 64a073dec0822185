-- ===== src/Server/Job/Token.antt =====
-- The constant-time comparison of src/server/pcap/tasks.rs decides equality.
use Prim.Native.Nat.{bit_or, bit_xor}
use evebox.Base.{ℕ, ◌≡◌, refl, ◌↔◌, ap₂, List, [], ◌∷◌, true, length, arith}
use evebox.Base.Bytes.{bit_or-eq-zero, bit_xor-eq-zero, bit_xor_self, zero-bit_or}
use evebox.Server.Job.{difference, token_matches}

difference-eq-zero :
    (acc : ℕ) (a b : List ℕ) → length a ≡ length b → difference acc a b ≡ 0 → (acc ≡ 0) × (a ≡ b)
unfolding difference
difference-eq-zero acc [] [] h e = (e, refl)
difference-eq-zero acc [] (y ∷ b) h e = absurd (omega arith)
difference-eq-zero acc (x ∷ a) [] h e = absurd (omega arith)
difference-eq-zero acc (x ∷ a) (y ∷ b) h e =
    let (same, rest) = difference-eq-zero (bit_or acc (bit_xor x y)) a b (omega arith) e in
    let (zero_acc, zero_digit) = bit_or-eq-zero acc (bit_xor x y) same in
    (zero_acc, ap₂ ◌∷◌ (bit_xor-eq-zero x y zero_digit) rest)

difference_self : (a : List ℕ) → difference 0 a a ≡ 0
unfolding difference
difference_self [] = refl
difference_self (x ∷ a) = rw (bit_xor_self x, zero-bit_or) (difference_self a)

-- The comparison, which looks at every byte, accepts exactly the expected token.
pub token_matches_iff :
    (expected presented : List ℕ)
    → (token_matches expected presented ≡ true) ↔ (expected ≡ presented)
unfolding token_matches
token_matches_iff expected presented = (
  λ h. (difference-eq-zero 0 expected presented (ground arith) (ground arith)).1,
  λ e. rw (← e) (ground (arith, difference_self expected)),
)
