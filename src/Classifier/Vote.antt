-- ===== src/Classifier/Vote.antt =====
-- internal/integration/classifier/classifier.go: `modeAccount`, the vote of the past transactions on
-- one field. The order in which Go goes through a map is a parameter.
pub mod Laws
use texas_fold_em.Common.{
  ℕ, suc, Bool, true, false, not, ◌&&◌, ◌||◌, Option, none, some, List, [], ◌∷◌, ltb, ◌==◌,
  if◌then◌else◌, length, is_some,
}
use texas_fold_em.Common.Text.{Str}
use texas_fold_em.Classifier.Decision.{Floats, Named}

-- One key of the map `counts`, with its number.
pub record Count : Type 0 where
  pub id : Option ℕ
  pub votes : ℕ

unfoldable pub same_id : Option ℕ → Option ℕ → Bool
same_id none none = true
same_id none (some b) = false
same_id (some a) none = false
same_id (some a) (some b) = a == b

-- `counts[k]++`.
unfoldable pub count_one : Option ℕ → List Count → List Count
count_one k [] = record { id = k; votes = 1 } ∷ []
count_one k (c ∷ l) =
    let rest = count_one k l in
    if same_id k c.id then record c { votes = suc c.votes } ∷ l else c ∷ rest

unfoldable pub tally : List Named → List Count → List Count
tally [] counts = counts
tally (h ∷ hits) counts = tally hits (count_one h.id counts)

-- `names[k]`, the last name that came with the key.
unfoldable pub last_name : Option ℕ → List Named → Option Str → Option Str
last_name k [] name = name
last_name k (h ∷ hits) name =
    last_name k hits (if same_id k h.id && is_some h.name then h.name else name)

-- The better of the best so far and the next key.
unfoldable pub better : Count → Count → Count
better best c =
    if ltb best.votes c.votes || (best.votes == c.votes && is_some c.id && not (is_some best.id))
    then c
    else best

-- The loop over the keys in the order of the map, from the best so far.
unfoldable pub winner : Count → List Count → Count
winner best [] = best
winner best (c ∷ l) = winner (better best c) l

-- Before the loop: no key, and fewer votes than any.
unfoldable pub best_of : List Count → Count
best_of [] = record { id = none; votes = 0 }
best_of (c ∷ l) = winner c l

-- A vote: the winner, its name and its share of the hits.
pub record Vote (f : Floats) : Type 0 where
  pub choice : Named
  pub share : f.Real

unfoldable pub mode_account : (f : Floats) → (List Count → List Count) → List Named → Vote f
mode_account f in_map_order [] = record {
  choice = record { id = none; name = none };
  share = f.zero;
}
mode_account f in_map_order (h ∷ hits) =
    let best = best_of (in_map_order (tally (h ∷ hits) [])) in
    record {
      choice = record {
        id = best.id;
        name =
            if is_some best.id
            then some (elim (last_name best.id (h ∷ hits) none) [ none ↦ [] | some n ↦ n ])
            else none;
      };
      share = f.ratio best.votes (length (h ∷ hits));
    }
