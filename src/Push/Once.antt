-- ===== src/Push/Once.antt =====
-- internal/integration/push.go: a row has at most one journal in Firefly, whatever fails on the way.
use texas_fold_em.Common.{
  ℕ, ◌+◌, ◌≤◌, ◌≡◌, refl, sym, subst, Bool, some, List, [], ◌∷◌, arith, Bool-cases, Option-cases,
  inl, inr, ◌⊎◌,
}
use texas_fold_em.Common.Text.{Str, str_eq_sound, str_eq_iff, str_eq, to_upper, trim_space}
use texas_fold_em.Push.Row.{Row}
use texas_fold_em.Push.Request.{Line, build_create_request}
use texas_fold_em.Push.Firefly.{
  Service, Answer, answer, failure, Created, CountsJournals, search_by_external_id, ensure_currency,
  create_transaction,
}
use texas_fold_em.Push.World.{
  World as PushWorld, audit, created, dedup_hit, Pusher, Attempt, find_row, mark_pushed,
}
use texas_fold_em.Push.Links.Counts.{link_refunds_adds_none}
use texas_fold_em.Push.{
  push, push_row, after_search, with_currency, after_currency, post_line, after_create, learn,
  eager_mirror, first_or,
}

-- A call of Push: when, confirmed or as a preview, and for which row.
pub record Call : Type 0 where
  pub attempt : Attempt
  pub confirm : Bool
  pub uuid : Str

module _ (f : Service) where
  -- Calls of Push one after another.
  unfoldable pub pushes : Pusher → List Call → PushWorld f → PushWorld f
  pushes p [] w = w
  pushes p (k ∷ calls) w = pushes p calls (push f p k.attempt k.confirm k.uuid w).0

module _ (f : Service) (c : CountsJournals f) where
  open c use {count}

  abbrev journals : Str → PushWorld f → ℕ
  journals uuid w = count w.ledger uuid

  ensure_currency_adds_none :
      (at : ℕ) (l : Service.Ledger f) (code uuid : Str)
      → count (ensure_currency f at l code).0 uuid ≡ count l uuid
  unfolding ensure_currency
  ensure_currency_adds_none at l code uuid = ground (
    arith,
    c.enable_adds_none at l (to_upper (trim_space code)) uuid,
    c.currency_adds_none at l (to_upper (trim_space code)) uuid,
  )

  with_currency_adds_none :
      (a : Attempt) (line : Line) (w : PushWorld f) (uuid : Str)
      → journals uuid (with_currency f a line w).0 ≡ journals uuid w
  unfolding with_currency
  with_currency_adds_none a line w uuid =
      ground (arith, ensure_currency_adds_none a.at w.ledger line.foreign_currency_code uuid)

  eager_mirror_same :
      (p : Pusher) (a : Attempt) (journal group : ℕ) (w : PushWorld f)
      → (eager_mirror f p a journal group w).ledger ≡ w.ledger
  unfolding eager_mirror
  eager_mirror_same p a journal group w = ground arith

  after_create_adds_none :
      (p : Pusher) (a : Attempt) (u : Str) (x : PushWorld f × Answer Created) (uuid : Str)
      → journals uuid (after_create f p a u x).0 ≡ journals uuid x.0
  unfolding after_create mark_pushed learn
  after_create_adds_none p a u (w, failure s) uuid = refl
  after_create_adds_none p a u (w, answer k) uuid =
      let journal = first_or k.journal_ids 0 in
      let kept = audit created u journal 200 (mark_pushed u journal k.group_id w) in
      ground (
        arith,
        eager_mirror_same p a journal k.group_id kept,
        link_refunds_adds_none f c uuid p a u
            (learn f p u (eager_mirror f p a journal k.group_id kept)),
      )

  -- After a POST: the same journals, or one more under the line's own id.
  abbrev AtMostOneMore : Str → Str → ℕ → ℕ → Type 0
  AtMostOneMore uuid posted before after =
      (after ≡ before) ⊎ ((uuid ≡ posted) × (after ≤ before + 1))

  post_transaction_adds :
      (at : ℕ) (l : Service.Ledger f) (line : Line) (uuid : Str)
      → AtMostOneMore uuid line.external_id
          (count l uuid)
          (count (f.post_transaction at l line).0 uuid)
  post_transaction_adds at l line uuid = elim (Bool-cases (str_eq uuid line.external_id)) [
    | inl e ↦
        let same = str_eq_sound uuid line.external_id e in
        inr (
          same,
          subst (λ u. count (f.post_transaction at l line).0 u ≤ count l u + 1) (sym same)
              (c.post_adds at l line),
        )
    | inr n ↦ inl (c.post_spares at l line uuid (λ e. cc ((str_eq_iff uuid line.external_id).1 e)))
  ]

  post_line_adds :
      (p : Pusher) (a : Attempt) (line : Line) (w : PushWorld f) (uuid : Str)
      → AtMostOneMore uuid line.external_id
          (journals uuid w)
          (journals uuid (post_line f p a line w).0)
  unfolding post_line create_transaction
  post_line_adds p a line w uuid =
      let (l, k) = create_transaction f a.at w.ledger line in
      ground (
        arith,
        post_transaction_adds a.at w.ledger line uuid,
        after_create_adds_none p a line.external_id (record w { ledger = l }, k) uuid,
      )

  after_currency_adds :
      (p : Pusher) (a : Attempt) (line : Line) (x : PushWorld f × Answer (Unit {0})) (uuid : Str)
      → AtMostOneMore uuid line.external_id
          (journals uuid x.0)
          (journals uuid (after_currency f p a line x).0)
  unfolding after_currency
  after_currency_adds p a line (w, failure s) uuid = inl refl
  after_currency_adds p a line (w, answer y) uuid = post_line_adds p a line w uuid

  after_search_at_most_one :
      (p : Pusher) (a : Attempt) (line : Line) (found : Answer (List ℕ)) (w : PushWorld f)
      (uuid : Str)
      → (found ≡ answer [] → journals line.external_id w ≡ 0)
      → journals uuid w ≤ 1
      → journals uuid (after_search f p a line found w).0 ≤ 1
  unfolding after_search mark_pushed
  after_search_at_most_one p a line (failure s) w uuid z h = h
  after_search_at_most_one p a line (answer (j ∷ js)) w uuid z h = ground (
    arith,
    link_refunds_adds_none f c uuid p a line.external_id
        (audit dedup_hit line.external_id j 200 (mark_pushed line.external_id j 0 w)),
  )
  after_search_at_most_one p a line (answer []) w uuid z h =
      let x = with_currency f a line w in
      elim (after_currency_adds p a line x uuid) [
        | inl same ↦ omega (arith, same, with_currency_adds_none a line w uuid)
        | inr (own, more) ↦
            let none_yet : journals uuid w ≡ 0 = subst (λ u. journals u w ≡ 0) (sym own) (z refl) in
            omega (arith, more, none_yet, with_currency_adds_none a line w uuid)
      ]

  push_row_at_most_one :
      (p : Pusher) (a : Attempt) (confirm : Bool) (r : Row) (w : PushWorld f) (uuid : Str)
      → journals uuid w ≤ 1
      → journals uuid (push_row f p a confirm r w).0 ≤ 1
  unfolding push_row build_create_request
  push_row_at_most_one p a confirm r w uuid h = ground (
    arith,
    after_search_at_most_one p a (build_create_request p.decode_tags (some w.accounts) r)
        (search_by_external_id f a.at w.ledger r.fold_uuid) w uuid
        (c.search_misses a.at w.ledger r.fold_uuid) h,
  )

  push_at_most_one :
      (p : Pusher) (a : Attempt) (confirm : Bool) (u : Str) (w : PushWorld f) (uuid : Str)
      → journals uuid w ≤ 1
      → journals uuid (push f p a confirm u w).0 ≤ 1
  unfolding push
  push_at_most_one p a confirm u w uuid h = elim (Option-cases (find_row u w.rows)) [
    | inl e ↦ ground (arith, e)
    | inr (r, e) ↦ ground (arith, e, push_row_at_most_one p a confirm r w uuid h)
  ]

  -- Whatever calls of Push are made one after another, for whichever rows, and whichever requests
  -- and writes fail on the way, Firefly ends with at most one journal for each row, if it had at
  -- most one before. Firefly is any service that counts journals as documented.
  pub pushes_at_most_one :
      (p : Pusher) (calls : List Call) (w : PushWorld f) (uuid : Str)
      → journals uuid w ≤ 1
      → journals uuid (pushes f p calls w) ≤ 1
  unfolding pushes
  pushes_at_most_one p [] w uuid h = h
  pushes_at_most_one p (k ∷ calls) w uuid h =
      pushes_at_most_one p calls (push f p k.attempt k.confirm k.uuid w).0 uuid
        (push_at_most_one p k.attempt k.confirm k.uuid w uuid h)
