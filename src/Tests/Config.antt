-- ===== src/Tests/Config.antt =====
-- An environment that is complete, and one that is empty.
use warp_work.Base.{◌≡◌, ◌≢◌, ◌⊎◌, refl, Option, none, [], Text, codes, text_eq, ℤ, if◌then◌else◌}
use warp_work.Base.Result.{ok, err}
use warp_work.Config.{load, read_config}
use warp_work.Config.Problems.{complaints, variables, load-complaints}
use warp_work.Config.Soundness.{IsSound, load-IsSound}

abbrev unset : Text → Text
unset key = []

abbrev never : Text → Option ℤ
never t = none

load-complaints_example :
    ((complaints unset never (variables unset never) ≡ [])
      × (load unset never ≡ ok (read_config unset never []).0))
    ⊎ ((complaints unset never (variables unset never) ≢ [])
        × (load unset never ≡ err (complaints unset never (variables unset never))))
load-complaints_example = load-complaints unset never

-- Thirty-two zero bytes, in base64.
abbrev zeros : Text
zeros = codes "AAAAAAAAAAAAAAAAAAAAAAAAAAAAAAAAAAAAAAAAAAA="

abbrev given : Text → Text
given key =
    if text_eq key (codes "DATABASE_URL")
    then codes "postgres://warp"
    else if text_eq key (codes "REDIS_URL")
    then codes "redis://warp"
    else if text_eq key (codes "CREDENTIALS_ENCRYPTION_KEY")
    then zeros
    else []

load-IsSound_example : IsSound given never (read_config given never []).0
unfolding load warp_work.Strings.trim_space warp_work.Strings.is_space
    warp_work.Codec.Base64.decode_padded
load-IsSound_example = load-IsSound given never (read_config given never []).0 refl
