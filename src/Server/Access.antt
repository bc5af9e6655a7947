-- ===== src/Server/Access.antt =====
-- server.go: who can move the broker.
use texas_fold_em.Common.{◌≡◌, ◌≢◌, [], ◌∷◌, ◌++◌, arith, Bool-cases, inl, inr, sym, ◌∙◌, ap}
use texas_fold_em.Common.Text.{
  Str, str, str_eq, str_eq_sound, str_eq_refl, has_prefix, strip_prefix, append-strip_prefix,
  has_prefix-append, strip_prefix-append,
}
use texas_fold_em.Fold.{Decoders}
use texas_fold_em.Broker.{Moment, World}
use texas_fold_em.Server.{
  Request, Server, Served, token_path, init_path, Route, bearer, serve, handle, handle_token,
  handle_init, handle_health,
}

abbrev pub bearer_of : Str → Str
bearer_of key = str "Bearer " ++ key

-- Without the key the handler behind the middleware does not run.
pub bearer_refuses :
    (key header : Str) (w : World) (served : Served)
    → header ≢ bearer_of key
    → bearer key header w served ≡ (w, 401)
unfolding bearer
bearer_refuses key header w served n = elim (Bool-cases (has_prefix header (str "Bearer "))) [
  | inr e ↦ rw e
  | inl e ↦ elim (Bool-cases (str_eq (strip_prefix header (str "Bearer ")) key)) [
    | inr f ↦ rw (e, f)
    | inl f ↦ absurd (
        n (
          append-strip_prefix header (str "Bearer ") e
          ∙ ap (λ k. str "Bearer " ++ k) (str_eq_sound _ key f)))
  ]
]

pub bearer_admits :
    (key : Str) (w : World) (served : Served) → bearer key (bearer_of key) w served ≡ served
unfolding bearer
bearer_admits key w served = rw (
  has_prefix-append key (str "Bearer "),
  strip_prefix-append key (str "Bearer "),
  str_eq_refl key,
)

serve_keyless :
    (d : Decoders) (s : Server) (m : Moment) (r : Request) (route : Route) (w : World)
    → r.authorization ≢ bearer_of s.broker_key
    → r.authorization ≢ bearer_of s.admin_key
    → (serve d s m r route w).0 ≡ w
unfolding serve handle_health
serve_keyless d s m r token_path w b a =
    ground (arith, bearer_refuses s.broker_key r.authorization w (handle_token d s m w) b)
serve_keyless d s m r init_path w b a =
    ground (arith, bearer_refuses s.admin_key r.authorization w (handle_init d m r.seed w) a)
serve_keyless d s m r route w b a = ground arith

-- A request that carries neither key leaves the broker's world as it is: the state, the disk, and
-- what has been asked of Fold.
pub handle_keyless :
    (d : Decoders) (s : Server) (m : Moment) (r : Request) (w : World)
    → r.authorization ≢ bearer_of s.broker_key
    → r.authorization ≢ bearer_of s.admin_key
    → (handle d s m r w).0 ≡ w
unfolding handle
handle_keyless d s m r w b a = serve_keyless d s m r r.route w b a

append-injective : (p s t : Str) → p ++ s ≡ p ++ t → s ≡ t
append-injective [] s t e = e
append-injective (c ∷ p) s t e = append-injective p s t (cc)

serve_init_path :
    (d : Decoders) (s : Server) (m : Moment) (r : Request) (w : World)
    → r.authorization ≡ bearer_of s.broker_key
    → s.broker_key ≢ s.admin_key
    → (serve d s m r init_path w).0 ≡ w
unfolding serve
serve_init_path d s m r w a n = ground (
  arith,
  bearer_refuses s.admin_key r.authorization w (handle_init d m r.seed w)
      (λ e. n (append-injective (str "Bearer ") s.broker_key s.admin_key (sym a ∙ e))),
)

-- The broker's key does not open Init, where it is not the admin's key as well.
handle_init_path_refuses :
    (d : Decoders) (s : Server) (m : Moment) (r : Request) (w : World)
    → r.route ≡ init_path
    → r.authorization ≡ bearer_of s.broker_key
    → s.broker_key ≢ s.admin_key
    → (handle d s m r w).0 ≡ w
unfolding handle
handle_init_path_refuses d s m r w e a n = rw (e, handle) (serve_init_path d s m r w a n)
