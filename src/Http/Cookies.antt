-- ===== src/Http/Cookies.antt =====
-- apps/api/internal/httpapi: what the operations rest on beyond the services, and the session
-- cookie of auth.go and auth_sessions.go.
use warp_work.Base.{
  ℕ, ◌-◌, ◌/◌, ℤ, pos, negsuc, minus_ℤ, Bool, true, Option, Text, codes, leb, if◌then◌else◌,
}
use warp_work.Auth.{second}
use warp_work.Auth.Federated.{FlowState}
use warp_work.Http.{Fault}

-- http.Cookie; each of them has SameSite=Lax.
pub record Cookie : Type 0 where
  pub name : Text
  pub value : Text
  pub path : Text
  pub expires : ℕ
  pub max_age : ℤ
  pub http_only : Bool
  pub secure : Bool

-- Libraries and configuration: err.Error(), Cookie.String(), encoding/json on the flow cookie,
-- net/url's parsing of a path with the setting of one query value, and whether APP_ENV is
-- production.
pub record Web : Type 0 where
  pub error_text : Fault → Text
  pub cookie_text : Cookie → Text
  pub marshal : FlowState → Text
  pub unmarshal : Text → Option FlowState
  pub with_query : Text → Text → Text → Text
  pub is_production : Bool

-- int(time.Until(t).Seconds()), which drops the fraction.
unfoldable pub seconds_until : ℕ → ℕ → ℤ
seconds_until t now = if leb now t then pos ((t - now) / second) else minus_ℤ ((now - t) / second)

module _ (web : Web) where
  unfoldable pub session_cookie : Text → ℕ → ℕ → Cookie
  unfolding seconds_until
  session_cookie token expires now = record {
    name = codes "warp_session";
    value = token;
    path = codes "/";
    expires = expires;
    max_age = seconds_until expires now;
    http_only = true;
    secure = web.is_production;
  }

  unfoldable pub expired_session_cookie : ℕ → Cookie
  unfolding session_cookie
  expired_session_cookie now = record (session_cookie (codes "") 0 now) { max_age = negsuc 0 }
