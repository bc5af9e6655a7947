-- ===== src/Examples/Repeats.antt =====
-- push.go: the theorem on a second push at a concrete row.
use texas_fold_em.Common.{◌≡◌, refl, true, some}
use texas_fold_em.Common.Text.{str, str_eq, lower_ascii, to_lower, to_upper, trim_space}
use texas_fold_em.TxnType.{
  valid_type, is_incoming, check_type, find_problem, type_allowed, settled_type, chosen_type,
  default_type, check_sides, type_eq, types_for,
}
use texas_fold_em.TxnType.Accounts.{side_asset, asset_by_name, account_kind, find, side_is_empty}
use texas_fold_em.Push.Row.{pushed, source_side, destination_side, resolve_side}
use texas_fold_em.Push.Request.{check_row, build_create_request, foreign_of}
use texas_fold_em.Push.Firefly.{
  search_by_external_id, collect, drop_zeros, create_transaction, ensure_currency,
}
use texas_fold_em.Push.World.{find_row}
use texas_fold_em.Push.{push, type_fits}
use texas_fold_em.Push.Links.Marks.{marks_of}
use texas_fold_em.Push.Again.{push_is_final}
use texas_fold_em.Examples.Pushes.{listed, pusher, attempt, world_of, ready_row}

push_is_final_example :
    let w' = (push listed pusher (attempt 1) true (str "r1") (world_of ready_row)).0 in
    (marks_of (str "r1") w'.rows ≡ some (pushed, (some 1, some 1)))
    × ((push listed pusher (attempt 2) true (str "r1") w').0 ≡ w')
unfolding push str_eq check_row check_type find_problem type_allowed is_incoming lower_ascii
    settled_type chosen_type valid_type to_lower trim_space side_asset source_side destination_side
    asset_by_name default_type find_row type_fits account_kind find side_is_empty check_sides
    type_eq types_for resolve_side search_by_external_id collect drop_zeros create_transaction
    ensure_currency build_create_request foreign_of to_upper
push_is_final_example =
    push_is_final listed pusher (attempt 1) (attempt 2) true true (str "r1") (world_of ready_row) 1
      1 refl
