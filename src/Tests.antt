-- ===== src/Tests.antt =====
-- The theorems at concrete inputs, and the data that they share.
pub mod Transactions
mod Evaluation
mod Ledgers
mod Keys
mod Kms
mod Journal
mod Budget
mod Psbt
mod Audit
mod Addresses
mod Emergency
mod Approvals
mod Policies
mod Signatures
mod Algorithms
use sara_pro.Prelude.{
  both_true, ℕ, zero, suc, ◌≡◌, ◌<◌, refl, List, [], ◌∷◌, ◌++◌, Bool, true, false, ◌&&◌, arith, ltb,
  ltb→lt,
}
use sara_pro.Bytes.{Bytes, IsBytes, Text, CaseTables}

abbrev pub repeat : {A : Type 0} → ℕ → A → List A
repeat zero a = []
repeat (suc n) a = a ∷ repeat n a

-- Outside ASCII nothing changes its case.
abbrev pub ascii : CaseTables
ascii = record { upper_other = λ c. c ∷ []; lower_other = λ c. c ∷ [] }

unfoldable pub all_bytes : Bytes → Bool
all_bytes [] = true
all_bytes (b ∷ bs) = ltb b 256 && all_bytes bs

pub all_bytes→IsBytes : (bs : Bytes) → all_bytes bs ≡ true → IsBytes bs
unfolding all_bytes
all_bytes→IsBytes [] h = tt
all_bytes→IsBytes (b ∷ bs) h =
    let (first, others) = both_true (ltb b 256) (all_bytes bs) h in
    (ltb→lt b 256 first, all_bytes→IsBytes bs others)
