-- ===== src/Tests/Sessions.antt =====
-- Sessions that end.
use warp_work.Base.{
  ◌≡◌, ◌<◌, refl, none, some, Text, codes, In, List, [], ◌∷◌, ◌≤◌, ◌+◌, ◌↔◌, ◌∙◌, sym, inl, inr,
}
use warp_work.Base.Result.{ok}
use warp_work.Store.{run}
use warp_work.Store.Auth.{password}
use warp_work.Store.Auth.Sessions.{
  SessionRow, is_live_token, live_session_by_token_hash, provider_kind, is_swept,
  sweep_expired_sessions,
}
use warp_work.Auth.Token.{hash_token}
use warp_work.Auth.Sessions.{authenticate, sweep_expired}
use warp_work.Auth.Sessions.Ending.{authenticate_sound}
use warp_work.Auth.Sessions.Spec.{IsKeyed, tickets, ticket_of}
use warp_work.Auth.Sessions.Refinement.{
  Call, sign_out_call, revoke_call, sweep_call, obey_all, world_after_all,
  authenticate-world_after_all,
}
use warp_work.Worker.{sweep_sessions, session_grace, IsRecent, sweep_sessions_lem}
use warp_work.Tests.Fixtures.{platform, world, token, ana_session}

abbrev stranger : Text
stranger = codes "another"

abbrev row : SessionRow
row = (ana_session, some password)

authenticate_sound_example :
    In row.0 world.db.sessions
    × (row.0.token_hash ≡ hash_token platform token)
    × (row.0.revoked_at ≡ none)
    × (310 < row.0.expires_at)
unfolding authenticate run live_session_by_token_hash is_live_token hash_token provider_kind
authenticate_sound_example = authenticate_sound platform token 310 world row refl

one_session : IsKeyed world.db.sessions
one_session a b (inl e) (inl e') h = e ∙ sym e'
one_session a b (inl e) (inr j) h = absurd j
one_session a b (inr i) j h = absurd i

-- Another session is revoked, a stranger signs out, and a sweep runs.
abbrev calls : List Call
calls = revoke_call 1 4 300 ∷ sign_out_call stranger 301 ∷ sweep_call 50 302 ∷ []

authenticate-world_after_all_example :
    ((obey_all platform calls (tickets world.db.sessions) (hash_token platform token)
        ≡ some (ticket_of ana_session))
      × (310 < 900))
    ↔ ((row : SessionRow) × ((authenticate platform token 310
            (world_after_all platform calls world)).0
          ≡ ok row)
        × (ticket_of row.0 ≡ ticket_of ana_session))
authenticate-world_after_all_example =
    authenticate-world_after_all platform calls token 310 world (ticket_of ana_session) (λ n. refl)
      one_session

sweep_sessions_lem_example :
    ((sweep_sessions platform 300 world).0 ≡ ok tt)
    × In ana_session world.db.sessions
    × (300 ≤ 900 + session_grace)
    × IsRecent platform 300 none
unfolding sweep_sessions sweep_expired run sweep_expired_sessions is_swept
sweep_sessions_lem_example = sweep_sessions_lem platform 300 world ana_session refl (inl refl)
