-- ===== src/RunpodProxy/Routes.antt =====
-- Which requests the proxy serves.
use vivijure_control_plane.Prelude.{
  ◌+◌, ◌≡◌, refl, Bool, true, false, not, ◌&&◌, ◌||◌, Option, none, some, List, [], ◌∷◌, ◌++◌,
  arith, length, drop, all, ◌==◌, nat_eq, is_some, if◌then◌else◌,
}
use vivijure_control_plane.Prelude.Text.{Text, codes, text_eq, text_beq, text_beq_iff, starts_with}
use vivijure_control_plane.Prelude.Split.{split}
use vivijure_control_plane.RunpodProxy.{
  ProxyRoute, submit, poll, webhook, unknown_route, status_op, cancel_op, health_op, is_segment,
  is_token, match_webhook, match_upstream, match_proxy_route, proxy_prefix, proxy_upstream_prefix,
  proxy_webhook_prefix, is_segment_unit,
}

-- A route with the method it is served for: the ids are single path segments and a token is 64
-- hexadecimal digits.
abbrev pub Served : Text → ProxyRoute → Type 0
Served method (submit e) = (method ≡ codes "POST") × (is_segment e ≡ true)
Served method (poll health_op e none) = (method ≡ codes "GET") × (is_segment e ≡ true)
Served method (poll status_op e (some j)) =
    (method ≡ codes "GET") × (is_segment e ≡ true) × (is_segment j ≡ true)
Served method (poll cancel_op e (some j)) =
    (method ≡ codes "POST") × (is_segment e ≡ true) × (is_segment j ≡ true)
Served method (poll _ _ _) = ⊥
Served method (webhook t) = (method ≡ codes "POST") × (is_token t ≡ true)
Served method unknown_route = Unit

two-Served : (method e op : Text) → Served method (match_upstream method (e ∷ op ∷ []))
unfolding match_upstream
two-Served method e op =
    ground (arith, text_beq_iff method (codes "POST"), text_beq_iff method (codes "GET"))

three-Served : (method e op j : Text) → Served method (match_upstream method (e ∷ op ∷ j ∷ []))
unfolding match_upstream
three-Served method e op j =
    ground (arith, text_beq_iff method (codes "POST"), text_beq_iff method (codes "GET"))

upstream-Served : (method : Text) (parts : List Text) → Served method (match_upstream method parts)
unfolding match_upstream
upstream-Served method [] = tt
upstream-Served method (e ∷ []) = tt
upstream-Served method (e ∷ op ∷ []) = two-Served method e op
upstream-Served method (e ∷ op ∷ j ∷ []) = three-Served method e op j
upstream-Served method (e ∷ op ∷ j ∷ k ∷ rest) = tt

webhook-Served : (method token : Text) → Served method (match_webhook method token)
unfolding match_webhook
webhook-Served method token = ground (arith, text_beq_iff method (codes "POST"))

abbrev pub ServedBy : Text → Option ProxyRoute → Type 0
ServedBy method none = Unit
ServedBy method (some r) = Served method r

-- Every route that the proxy answers with is one that it serves for the method, and a path is left
-- to the rest of the router exactly when it does not lie under the prefix.
pub match_proxy_route_served :
    (method path : Text)
    → ServedBy method (match_proxy_route method path)
      × (is_some (match_proxy_route method path)
          ≡ (path == proxy_prefix || starts_with path (proxy_prefix ++ codes "/")))
unfolding match_proxy_route
match_proxy_route_served method path =
    let w = webhook-Served method (drop (length proxy_webhook_prefix + 1) path) in
    let u = upstream-Served method (split b'/' (drop (length proxy_upstream_prefix + 1) path)) in
    (
      pick (not (path == proxy_prefix) && not (starts_with path (proxy_prefix ++ codes "/")))
          (starts_with path (proxy_webhook_prefix ++ codes "/"))
          (starts_with path (proxy_upstream_prefix ++ codes "/")) _ _ w u,
      ground arith,
    )
  where
    pick :
        (a b c : Bool) (x y : ProxyRoute)
        → Served method x
        → Served method y
        → ServedBy method
            (if a then none else if b then some x else if c then some y else some unknown_route)
    pick true b c x y w u = tt
    pick false true c x y w u = w
    pick false false true x y w u = u
    pick false false false x y w u = tt

split-segment :
    (e t : Text) → all is_segment_unit e ≡ true → split b'/' (e ++ b'/' ∷ t) ≡ e ∷ split b'/' t
unfolding split
split-segment [] t h = refl
split-segment (c ∷ e) t h =
    let ih = split-segment e t (ground arith) in
    let other : (c == b'/') ≡ false = ground arith in rw (other, ih) refl

-- The address that a module builds for a submit to an endpoint is matched as a submit to it.
pub match_proxy_route-submit :
    (e : Text)
    → is_segment e ≡ true
    → match_proxy_route (codes "POST") (proxy_upstream_prefix ++ (codes "/" ++ (e ++ codes "/run")))
      ≡ some (submit e)
unfolding match_proxy_route match_upstream text_beq starts_with
match_proxy_route-submit e h =
    rw (split-segment e (codes "run") (ground arith)) (unfold split in ground arith)
