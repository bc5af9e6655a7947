-- ===== src/Server.antt =====
-- server.go: the HTTP front of the broker. A request carries what the handlers read of it; the
-- routes of the integration are registered elsewhere and are not among these.
pub mod Access
pub mod Statuses
use texas_fold_em.Common.{
  ℕ, ◌≡◌, refl, Bool, true, false, ◌&&◌, ◌||◌, not, Option, none, some, List, [], ◌∷◌, ◌++◌,
  if◌then◌else◌, ltb,
}
use texas_fold_em.Common.Text.{Str, str, str_eq, is_empty, trim_space, has_prefix, strip_prefix}
use texas_fold_em.Fold.{
  Err, not_seeded, bad_input, refresh_rejected, deadline_exceeded, canceled, plain, wrapped, Result,
  ok, err, root, Decoders,
}
use texas_fold_em.Store.{State, seeded, rejected}
use texas_fold_em.Broker.{Moment, World, memory, AccessToken, token, init}

pub data Method : Type 0 where
  get head post other_method : Method

-- The paths that the broker serves, and any other.
pub data Route : Type 0 where
  livez health token_path init_path other_path : Route

pub record Request : Type 0 where
  pub method : Method
  pub route : Route
  pub authorization : Str
  -- refresh_token and device_hash of a body that decodes
  pub seed : Option (Str × Str)

pub record Server : Type 0 where
  pub broker_key : Str
  pub admin_key : Str
  pub refresh_lead : ℕ

-- The world after the request, and the status of the answer.
abbrev pub Served : Type 0
Served = World × ℕ

-- mapBrokerError, by what the error is at its root.
unfoldable pub status_of_root : Err → ℕ
status_of_root bad_input = 400
status_of_root not_seeded = 409
status_of_root (refresh_rejected code message) = 410
status_of_root deadline_exceeded = 504
status_of_root canceled = 504
status_of_root _ = 502

unfoldable pub map_broker_error : Err → ℕ
unfolding status_of_root
map_broker_error e = status_of_root (root e)

answer_status : Result AccessToken → ℕ
unfolding map_broker_error
answer_status (ok t) = 200
answer_status (err e) = map_broker_error e

-- (Status).Ready of the broker's Status.
unfoldable pub ready : State → Bool
ready s = seeded s && not (rejected s)

unfoldable pub handle_health : World → Served
unfolding ready
handle_health w = (w, if ready (memory w) then 200 else 503)

unfoldable pub handle_token : Decoders → Server → Moment → World → Served
unfolding answer_status
handle_token d s m w = let (w', answer) = token d s.refresh_lead m w in (w', answer_status answer)

unfoldable pub handle_init : Decoders → Moment → Option (Str × Str) → World → Served
unfolding answer_status
handle_init d m none w = (w, 400)
handle_init d m (some (refresh, device)) w =
    let (w', answer) = init d m (trim_space refresh) (trim_space device) w in
    (w', answer_status answer)

-- The middleware `bearer` before a handler; the comparison in constant time is an equality.
unfoldable pub bearer : Str → Str → World → Served → Served
bearer expected header w served =
    if not (has_prefix header (str "Bearer "))
    then (w, 401)
    else if str_eq (strip_prefix header (str "Bearer ")) expected
    then served
    else (w, 401)

reads : Method → Bool
reads get = true
reads head = true
reads _ = false

posts : Method → Bool
posts post = true
posts _ = false

-- Handler: the routes, with the methods of http.ServeMux, where GET serves HEAD as well.
serve : Decoders → Server → Moment → Request → Route → World → Served
unfolding reads posts
serve d s m r livez w = if reads r.method then (w, 200) else (w, 405)
serve d s m r health w = if reads r.method then handle_health w else (w, 405)
serve d s m r token_path w =
    if reads r.method
    then bearer s.broker_key r.authorization w (handle_token d s m w)
    else (w, 405)
serve d s m r init_path w =
    if posts r.method
    then bearer s.admin_key r.authorization w (handle_init d m r.seed w)
    else (w, 405)
serve d s m r other_path w = (w, 404)

unfoldable pub handle : Decoders → Server → Moment → Request → World → Served
unfolding serve
handle d s m r w = serve d s m r r.route w
