-- ===== src/Examples/Types.antt =====
-- txntype.go and refundref.go: the theorems on types and references at concrete inputs.
use texas_fold_em.Common.{ℕ, true, some, List, [], ◌∷◌}
use texas_fold_em.Common.Text.{str}
use texas_fold_em.TxnType.Accounts.{asset, expense, Account, Side, Mirror}

-- The bank and the card of the user, and a shop.
abbrev pub accounts_of_user : List Account
accounts_of_user =
    record { firefly_id = 1; name = str "Bank"; kind = asset; active = true }
    ∷ record { firefly_id = 2; name = str "Card"; kind = asset; active = true }
    ∷ record { firefly_id = 3; name = str "Shop"; kind = expense; active = true }
    ∷ []

abbrev pub by_id : ℕ → Side
by_id n = record { id = n; name = [] }

abbrev mirror : Mirror
mirror = some accounts_of_user

abbrev by_name : Side
by_name = record { id = 0; name = str " card " }
