-- ===== src/Classifier/Apply/Accepted.antt =====
-- internal/integration/classifier/classifier.go: what an auto-accepted row is.
use texas_fold_em.Common.{
  ℕ, ◌≡◌, ◌≢◌, refl, sym, Bool, false, not, ◌&&◌, Option, none, some, List, [], ◌∷◌, arith, ◌⊎◌,
  inl, inr, is_some, ap, ◌∙◌,
}
use texas_fold_em.Common.Text.{Str, str, str_eq, is_empty, trim_space, trim_left}
use texas_fold_em.Push.Row.{ready_to_push}
use texas_fold_em.Classifier.Decision.{
  Floats, merchant_lookup, fts_vote, model, human_review, refund, Tier, Decision, StagedRow,
}
use texas_fold_em.Classifier.Tiers.{is_human_review}
use texas_fold_em.Classifier.Cards.{FoldAccountRef, FireflyAsset, match_fold_card}
use texas_fold_em.Classifier.Cards.Only.{IsCard, match_fold_card-IsCard}
use texas_fold_em.Classifier.Apply.{
  TableRow, decided_row, status_for, new_destination, new_source, resolve_own_side,
  with_destination, with_source,
}

not_human : (t : Tier) → is_human_review t ≡ false → t ≢ human_review
unfolding is_human_review
not_human merchant_lookup h e = cc
not_human fts_vote h e = cc
not_human model h e = cc
not_human human_review h e = cc
not_human refund h e = cc

trim_space-nil : trim_space [] ≡ []
unfolding trim_space trim_left
trim_space-nil = refl

-- A name that is more than spaces is not empty.
pub named_is_nonempty : (s : Str) → is_empty (trim_space s) ≡ false → is_empty s ≡ false
named_is_nonempty [] h = cc (h, trim_space-nil)
named_is_nonempty (c ∷ s) h = refl

-- The row's own account is the one that was found.
abbrev pub IsFound : Option FireflyAsset → Option ℕ → Type 0
IsFound found id = (a : FireflyAsset) × (found ≡ some a) × (id ≡ some a.id)

-- It is the one account of the user that goes by the card or account of Fold.
abbrev pub IsMatched : (Str → Str) → FoldAccountRef → List FireflyAsset → Option ℕ → Type 0
IsMatched cut_mask account assets id =
    (a : FireflyAsset) × IsCard cut_mask account assets a × (id ≡ some a.id)

found-IsMatched :
    (cut_mask : Str → Str) (account : FoldAccountRef) (assets : List FireflyAsset) (id : Option ℕ)
    → IsFound (match_fold_card cut_mask account assets) id
    → IsMatched cut_mask account assets id
found-IsMatched cut_mask account assets id (a, e, same) =
    (a, match_fold_card-IsCard cut_mask account assets a e, same)

module _ (f : Floats) where
  -- What makes a decision one that goes with no person's word.
  pub record IsAccepted (threshold : f.Real) (d : Decision f) : Type 0 where
    pub settled : d.tier ≢ human_review
    pub confident : f.below d.confidence threshold ≡ false
    pub destination :
        (d.destination_account_id ≢ none) ⊎ (trim_space d.destination_account_name ≡ [])
    pub source : (d.source_account_id ≢ none) ⊎ (trim_space d.source_account_name ≡ [])

  linked :
      (id : Option ℕ) (name : Str)
      → (not (is_some id) && not (is_empty name)) ≡ false
      → (id ≢ none) ⊎ (name ≡ [])
  linked none [] h = inr refl
  linked none (c ∷ s) h = cc
  linked (some a) name h = inl (λ e. cc)

  pub status_for-IsAccepted :
      (threshold : f.Real) (d : Decision f)
      → status_for f threshold d ≡ ready_to_push
      → IsAccepted threshold d
  unfolding status_for new_destination new_source
  status_for-IsAccepted threshold d h =
      let tier : is_human_review d.tier ≡ false = ground arith in
      let confident : f.below d.confidence threshold ≡ false = ground arith in
      let destination : new_destination f d ≡ false = ground arith in
      let source : new_source f d ≡ false = ground arith in
      record {
        settled = not_human d.tier tier;
        confident = confident;
        destination =
            linked d.destination_account_id (trim_space d.destination_account_name) destination;
        source = linked d.source_account_id (trim_space d.source_account_name) source;
      }

  IsFound-source :
      (found : Option FireflyAsset) (name : Str) (d : Decision f)
      → is_empty (trim_space name) ≡ false
      → new_source f (with_source f found name d) ≡ false
      → IsFound found (with_source f found name d).source_account_id
  unfolding with_source new_source
  IsFound-source (some a) name d n h = (a, refl, refl)
  IsFound-source none name d n h = absurd (ground (arith, n, h))

  IsFound-destination :
      (found : Option FireflyAsset) (name : Str) (d : Decision f)
      → is_empty (trim_space name) ≡ false
      → new_destination f (with_destination f found name d) ≡ false
      → IsFound found (with_destination f found name d).destination_account_id
  unfolding with_destination new_destination
  IsFound-destination (some a) name d n h = (a, refl, refl)
  IsFound-destination none name d n h = absurd (ground (arith, n, h))

  no_new_source :
      (threshold : f.Real) (d : Decision f)
      → status_for f threshold d ≡ ready_to_push
      → (new_source f d ≡ false) × (new_destination f d ≡ false)
  unfolding status_for
  no_new_source threshold d h = ground arith

module _ (f : Floats) (cut_mask : Str → Str) (lookup : Str → Option FoldAccountRef)
    (assets : List FireflyAsset) (s : StagedRow) (account : FoldAccountRef)
    (known : lookup s.raw_payload ≡ some account)
    (named : is_empty (trim_space account.name) ≡ false) where
  resolved_source :
      (d : Decision f)
      → s.type ≡ str "OUTGOING"
      → resolve_own_side f cut_mask lookup assets s d
        ≡ with_source f (match_fold_card cut_mask account assets) account.name d
  unfolding resolve_own_side str_eq
  resolved_source d e = ground (
    arith,
    known,
    named_is_nonempty account.name named,
    ap (λ (t : Str). str_eq t (str "INCOMING")) e,
    ap (λ (t : Str). str_eq t (str "OUTGOING")) e,
  )

  resolved_destination :
      (d : Decision f)
      → s.type ≡ str "INCOMING"
      → resolve_own_side f cut_mask lookup assets s d
        ≡ with_destination f (match_fold_card cut_mask account assets) account.name d
  unfolding resolve_own_side str_eq
  resolved_destination d e = ground (
    arith,
    known,
    named_is_nonempty account.name named,
    ap (λ (t : Str). str_eq t (str "INCOMING")) e,
    ap (λ (t : Str). str_eq t (str "OUTGOING")) e,
  )

  -- Where Fold's payload names a card or an account that is mirrored and has a name, a row that a
  -- decision leaves ready to push has its own side at the one account of the user that goes by it,
  -- whatever a tier said: the only one whose number ends in its last digits, or the only one with its
  -- name or its provider's, or one that shares more than half of its words and more than any other.
  -- That side is the source of money that goes out, and the destination of money that comes in.
  pub decided_row-IsMatched :
      (threshold : f.Real) (version : ℕ) (released : Bool) (d : Decision f) (r : TableRow f)
      → (decided_row f threshold version released
          (resolve_own_side f cut_mask lookup assets s d)
          r).status
        ≡ ready_to_push
      → (s.type ≡ str "OUTGOING"
          → IsMatched cut_mask account assets
              (decided_row f threshold version released
                (resolve_own_side f cut_mask lookup assets s d)
                r).proposed.source_account_id)
        × (s.type ≡ str "INCOMING"
            → IsMatched cut_mask account assets
                (decided_row f threshold version released
                  (resolve_own_side f cut_mask lookup assets s d)
                  r).proposed.destination_account_id)
  unfolding decided_row
  decided_row-IsMatched threshold version released d r h =
      let own = resolve_own_side f cut_mask lookup assets s d in
      let known_names = no_new_source f threshold own h in
      (
        (λ out.
            let e = resolved_source d out in
            found-IsMatched cut_mask account assets _ (
              rw e (
                IsFound-source f _ account.name d named
                  (ap (new_source f) (sym e) ∙ known_names.0)))),
        (λ inward.
            let e = resolved_destination d inward in
            found-IsMatched cut_mask account assets _ (
              rw e (
                IsFound-destination f _ account.name d named
                  (ap (new_destination f) (sym e) ∙ known_names.1)))),
      )

module _ (f : Floats) where
  -- A decision leaves a row ready to push only if it is not the one for a person, its confidence is
  -- not below the threshold, and each side that it names has an account of Firefly; the row then
  -- carries no name of a new destination.
  pub decided_row-IsAccepted :
      (threshold : f.Real) (version : ℕ) (released : Bool) (d : Decision f) (r : TableRow f)
      → (decided_row f threshold version released d r).status ≡ ready_to_push
      → IsAccepted f threshold d
        × ((decided_row f threshold version released d r).proposed.destination_account_name ≡ none)
  unfolding decided_row
  decided_row-IsAccepted threshold version released d r h =
      (status_for-IsAccepted f threshold d h, rw ((no_new_source f threshold d h).1) refl)
