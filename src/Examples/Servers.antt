-- ===== src/Examples/Servers.antt =====
-- server.go: the theorems on the HTTP front at concrete requests.
use texas_fold_em.Common.{◌≡◌, ◌↔◌, ◌⊎◌, refl, some}
use texas_fold_em.Common.Text.{Str, str, str_eq, str_eq_iff}
use texas_fold_em.Server.{Request, Server, post, init_path, handle, handle_token, handle_health}
use texas_fold_em.Server.Access.{handle_keyless}
use texas_fold_em.Server.Statuses.{handle_token-handle_health}
use texas_fold_em.Examples.Brokers.{plain_decoders, old_world, dead_world, renewing}

abbrev two_keys : Server
two_keys = record { broker_key = str "b"; admin_key = str "a"; refresh_lead = 10 }

abbrev seeding : Str → Request
seeding header = record {
  method = post;
  route = init_path;
  authorization = header;
  seed = some (str "h.u.r", str "dev");
}

handle_keyless_example :
    (handle plain_decoders two_keys renewing (seeding (str "Bearer c")) old_world).0 ≡ old_world
unfolding str_eq
handle_keyless_example =
    handle_keyless plain_decoders two_keys renewing (seeding (str "Bearer c")) old_world
      (λ e. cc ((str_eq_iff (str "Bearer c") (str "Bearer b")).1 e))
      (λ e. cc ((str_eq_iff (str "Bearer c") (str "Bearer a")).1 e))

handle_token-handle_health_example :
    let (w', status) = handle_token plain_decoders two_keys renewing dead_world in
    ((handle_health w').1 ≡ 503) ↔ ((status ≡ 409) ⊎ (status ≡ 410))
handle_token-handle_health_example =
    handle_token-handle_health plain_decoders two_keys renewing dead_world refl
