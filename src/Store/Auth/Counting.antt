-- ===== src/Store/Auth/Counting.antt =====
-- How the count of failed sign-ins shows in the credential.
use warp_work.Base.Result.{ok}
use warp_work.Base.{
  ℕ, ◌+◌, ◌≤◌, ◌≡◌, refl, ap, ◌∙◌, some, Text, leb, ◌==◌, if◌then◌else◌, arith, find_holds,
  Option-cases, inl, inr, find-change_keeps,
}
use warp_work.Store.Auth.{AuthDb, AuthPassword, AuthProvider}
use warp_work.Store.Auth.Credentials.{
  Credential, find_password, find_identity, find_credential, credential, set_password,
  count_failure, record_failed_login, max_smallint,
}

-- A change of one provider's password, as the credential shows it.
pub find_password-set_password :
    (id : ℕ) (f : AuthPassword → AuthPassword) (db : AuthDb) (w : AuthPassword)
    → ((x : AuthPassword) → (f x).auth_provider_id ≡ x.auth_provider_id)
    → find_password id db ≡ some w
    → find_password id (set_password id f db) ≡ some (f w)
unfolding find_password
find_password-set_password id f db w keeps e =
    let test = λ (x : AuthPassword). x.auth_provider_id == id in
    find-change_keeps test test f db.passwords (λ x. ap (λ k. k == id) (keeps x))
    ∙ ground (arith, e, find_holds test db.passwords w e)

-- The credential is made of a provider and its password.
abbrev Parts : Text → AuthDb → Credential → Type 0
Parts email db cred =
    (p : AuthProvider) × (w : AuthPassword) × (find_identity email db ≡ some p)
    × (find_password p.id db ≡ some w)
    × (credential p w ≡ cred)

find_credential-Parts :
    (email : Text) (db : AuthDb) (cred : Credential)
    → find_credential email db ≡ some cred
    → Parts email db cred
unfolding find_credential
find_credential-Parts email db cred e = elim (Option-cases (find_identity email db)) [
  | inl q ↦ cc (rw (q, find_credential) at e)
  | inr (p, q) ↦ elim (Option-cases (find_password p.id db)) [
    | inl k ↦ cc (rw (q, find_credential, k) at e)
    | inr (w, k) ↦ (p, w, q, k, ground arith)
  ]
]

find_credential_of_parts :
    (email : Text) (db : AuthDb) (p : AuthProvider) (w : AuthPassword)
    → find_identity email db ≡ some p
    → find_password p.id db ≡ some w
    → find_credential email db ≡ some (credential p w)
unfolding find_credential
find_credential_of_parts email db p w q k = rw (q, find_credential, k) refl

-- The credential with one more failure counted.
abbrev pub with_failure : ℕ → ℕ → Credential → Credential
with_failure max_attempts lock_until c = record c {
  failed_attempts = c.failed_attempts + 1;
  locked_until =
      if leb max_attempts (c.failed_attempts + 1) then some lock_until else c.locked_until;
}

pub find_credential-count_failure :
    (email : Text) (max_attempts lock_until : ℕ) (db : AuthDb) (cred : Credential)
    → find_credential email db ≡ some cred
    → find_credential email
        (set_password cred.provider_id (count_failure max_attempts lock_until) db)
      ≡ some (with_failure max_attempts lock_until cred)
unfolding count_failure
find_credential-count_failure email max_attempts lock_until db cred e =
    let (p, w, q, k, c) = find_credential-Parts email db cred e in
    rw (← c) (
      find_credential_of_parts email _ p _ (unfold find_identity in q) (
        find_password-set_password p.id (count_failure max_attempts lock_until) db w (λ x. refl) k))

-- And its password's row.
pub find_password-credential :
    (email : Text) (db : AuthDb) (cred : Credential)
    → find_credential email db ≡ some cred
    → (w : AuthPassword) × (find_password cred.provider_id db ≡ some w)
      × (w.hash ≡ cred.hash)
      × (w.failed_attempts ≡ cred.failed_attempts)
      × (w.locked_until ≡ cred.locked_until)
find_password-credential email db cred e =
    let (p, w, q, k, c) = find_credential-Parts email db cred e in rw (← c) (w, k, refl, refl, refl)

-- A failure that fits its column is counted.
pub record_failed_login_lem :
    (email : Text) (max_attempts lock_until at : ℕ) (db : AuthDb) (cred : Credential)
    → find_credential email db ≡ some cred
    → cred.failed_attempts + 1 ≤ max_smallint
    → record_failed_login cred.provider_id max_attempts lock_until at db ≡ (
      ok (
        (with_failure max_attempts lock_until cred).failed_attempts,
        (with_failure max_attempts lock_until cred).locked_until,
      ),
      set_password cred.provider_id (count_failure max_attempts lock_until) db,
    )
unfolding record_failed_login count_failure
record_failed_login_lem email max_attempts lock_until at db cred e room =
    let (w, k, h, same, lock) = find_password-credential email db cred e in
    rw (k, record_failed_login) (ground (arith, same, lock))
