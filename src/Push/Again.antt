-- ===== src/Push/Again.antt =====
-- internal/integration/push.go: a push that created a journal is the last one of its row.
use texas_fold_em.Common.{
  ℕ, ◌≡◌, refl, sym, subst, ap, ◌∙◌, Bool, none, some, List, [], ◌∷◌, if◌then◌else◌, ◌==◌, arith,
  Bool-cases, Option-cases, inl, inr,
}
use texas_fold_em.Common.Text.{Str}
use texas_fold_em.Push.Row.{Row, pushed}
use texas_fold_em.Push.Request.{Line, build_create_request}
use texas_fold_em.Push.Firefly.{
  Service, Answer, answer, failure, Created, search_by_external_id, create_transaction,
}
use texas_fold_em.Push.World.{
  World as PushWorld, Pusher, Attempt, Outcome, ok, refused, database_error, find_row, mark_pushed,
  audit, created,
}
use texas_fold_em.Push.Links.{link_refunds}
use texas_fold_em.Push.Links.Marks.{marks_of, marks_of-marked, link_refunds_marks}
use texas_fold_em.Push.{
  Report, created_as, push, push_found, push_row, after_search, with_currency, after_currency,
  post_line, after_create, learn, eager_mirror, first_or,
}

module _ (f : Service) where
  eager_mirror_rows :
      (p : Pusher) (a : Attempt) (journal group : ℕ) (w : PushWorld f)
      → (eager_mirror f p a journal group w).rows ≡ w.rows
  unfolding eager_mirror
  eager_mirror_rows p a journal group w = ground arith

  -- The row is pushed, with the journal and the group that the outcome names.
  abbrev pub IsMarked : Str → ℕ → ℕ → PushWorld f → Type 0
  IsMarked u journal group w =
      marks_of u w.rows ≡ some (pushed, (some journal, if group == 0 then none else some group))

  after_create-IsMarked :
      (p : Pusher) (a : Attempt) (u : Str) (x : PushWorld f × Answer Created) (r : Row) (j g : ℕ)
      → find_row u x.0.rows ≡ some r
      → (after_create f p a r.fold_uuid x).1 ≡ ok (created_as j g)
      → IsMarked u j g (after_create f p a r.fold_uuid x).0
  unfolding after_create mark_pushed learn
  after_create-IsMarked p a u (w, failure s) r j g found h = ground arith
  after_create-IsMarked p a u (w, answer k) r j g found h =
      let journal = first_or k.journal_ids 0 in
      let kept =
        audit created r.fold_uuid journal 200 (mark_pushed r.fold_uuid journal k.group_id w) in
      let told = learn f p r.fold_uuid (eager_mirror f p a journal k.group_id kept) in
      let same = link_refunds_marks f u p a r.fold_uuid told in
      let rows = ap (marks_of u) (eager_mirror_rows p a journal k.group_id kept) in
      let here = marks_of-marked u journal k.group_id w.rows r found in
      let written : IsMarked u journal k.group_id (link_refunds f p a r.fold_uuid told) =
        same ∙ (rows ∙ here) in
      elim (Bool-cases a.marks) [
        | inl e ↦
            let ids : (journal ≡ j) × (k.group_id ≡ g) = ground (arith, e) in
            let renamed =
              subst (λ n. IsMarked u j n (link_refunds f p a r.fold_uuid told)) ids.1
                (subst (λ n. IsMarked u n k.group_id (link_refunds f p a r.fold_uuid told)) ids.0
                  written) in
            let outcome : Bool → PushWorld f × Outcome Report = λ b.
              if b
              then (link_refunds f p a r.fold_uuid told, ok (created_as journal k.group_id))
              else (w, refused database_error) in
            subst (λ b. IsMarked u j g (outcome b).0) (sym e) renamed
        | inr e ↦ ground (arith, e)
      ]

  post_line-IsMarked :
      (p : Pusher) (a : Attempt) (line : Line) (u : Str) (w : PushWorld f) (r : Row) (j g : ℕ)
      → line.external_id ≡ r.fold_uuid
      → find_row u w.rows ≡ some r
      → (post_line f p a line w).1 ≡ ok (created_as j g)
      → IsMarked u j g (post_line f p a line w).0
  unfolding post_line
  post_line-IsMarked p a line u w r j g own found h =
      let (l, k) = create_transaction f a.at w.ledger line in
      let x : PushWorld f × Answer Created = (record w { ledger = l }, k) in
      subst
        (λ v.
          (after_create f p a v x).1 ≡ ok (created_as j g)
          → IsMarked u j g (after_create f p a v x).0)
        (sym own) (after_create-IsMarked p a u x r j g found) h

  with_currency_rows :
      (a : Attempt) (line : Line) (w : PushWorld f) → (with_currency f a line w).0.rows ≡ w.rows
  unfolding with_currency
  with_currency_rows a line w = ground arith

  after_currency-IsMarked :
      (p : Pusher) (a : Attempt) (line : Line) (u : Str) (x : PushWorld f × Answer (Unit {0}))
      (r : Row) (j g : ℕ)
      → line.external_id ≡ r.fold_uuid
      → find_row u x.0.rows ≡ some r
      → (after_currency f p a line x).1 ≡ ok (created_as j g)
      → IsMarked u j g (after_currency f p a line x).0
  unfolding after_currency
  after_currency-IsMarked p a line u (w, failure s) r j g own found h = ground arith
  after_currency-IsMarked p a line u (w, answer y) r j g own found h =
      post_line-IsMarked p a line u w r j g own found h

  after_search-IsMarked :
      (p : Pusher) (a : Attempt) (line : Line) (seen : Answer (List ℕ)) (u : Str) (w : PushWorld f)
      (r : Row) (j g : ℕ)
      → line.external_id ≡ r.fold_uuid
      → find_row u w.rows ≡ some r
      → (after_search f p a line seen w).1 ≡ ok (created_as j g)
      → IsMarked u j g (after_search f p a line seen w).0
  unfolding after_search
  after_search-IsMarked p a line (failure s) u w r j g own found h = ground arith
  after_search-IsMarked p a line (answer (n ∷ ns)) u w r j g own found h = ground arith
  after_search-IsMarked p a line (answer []) u w r j g own found h =
      after_currency-IsMarked p a line u (with_currency f a line w) r j g own
        (ap (find_row u) (with_currency_rows a line w) ∙ found) h

  own_id :
      (p : Pusher) (r : Row) (w : PushWorld f)
      → (build_create_request p.decode_tags (some w.accounts) r).external_id ≡ r.fold_uuid
  unfolding build_create_request
  own_id p r w = refl

  push_row-IsMarked :
      (p : Pusher) (a : Attempt) (confirm : Bool) (u : Str) (r : Row) (w : PushWorld f) (j g : ℕ)
      → find_row u w.rows ≡ some r
      → (push_row f p a confirm r w).1 ≡ ok (created_as j g)
      → IsMarked u j g (push_row f p a confirm r w).0
  unfolding push_row
  push_row-IsMarked p a confirm u r w j g found h =
      let line = build_create_request p.decode_tags (some w.accounts) r in
      let sent =
        after_search-IsMarked p a line (search_by_external_id f a.at w.ledger r.fold_uuid) u w r j g
          (own_id p r w) found in
      ground (arith, sent)

  push-IsMarked :
      (p : Pusher) (a : Attempt) (confirm : Bool) (u : Str) (w : PushWorld f) (j g : ℕ)
      → (push f p a confirm u w).1 ≡ ok (created_as j g)
      → IsMarked u j g (push f p a confirm u w).0
  unfolding push push_found
  push-IsMarked p a confirm u w j g h = elim (Option-cases (find_row u w.rows)) [
    | inl e ↦ ground (arith, e)
    | inr (r, e) ↦ let sent = push_row-IsMarked p a confirm u r w j g e in ground (arith, e, sent)
  ]

  marked_row-pushed :
      (u : Str) (j g : ℕ) (w : PushWorld f) (r : Row)
      → find_row u w.rows ≡ some r
      → IsMarked u j g w
      → r.status ≡ pushed
  marked_row-pushed u j g w r e h = ground (arith, e)

  push-marked :
      (p : Pusher) (a : Attempt) (confirm : Bool) (u : Str) (w : PushWorld f) (j g : ℕ)
      → IsMarked u j g w
      → (push f p a confirm u w).0 ≡ w
  unfolding push push_found push_row
  push-marked p a confirm u w j g h = elim (Option-cases (find_row u w.rows)) [
    | inl e ↦ ground (arith, e)
    | inr (r, e) ↦ let done = marked_row-pushed u j g w r e h in ground (arith, e, done)
  ]

  -- A push that reports a created journal leaves the row pushed, with that journal and its group,
  -- and another push of the row then, whenever and however it is made, changes nothing.
  pub push_is_final :
      (p : Pusher) (a later : Attempt) (confirm again : Bool) (u : Str) (w : PushWorld f) (j g : ℕ)
      → (push f p a confirm u w).1 ≡ ok (created_as j g)
      → let w' = (push f p a confirm u w).0 in
        IsMarked u j g w' × ((push f p later again u w').0 ≡ w')
  push_is_final p a later confirm again u w j g h =
      let marked_now = push-IsMarked p a confirm u w j g h in
      (marked_now, push-marked p later again u (push f p a confirm u w).0 j g marked_now)
