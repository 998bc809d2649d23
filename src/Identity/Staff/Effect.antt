-- ===== src/Identity/Staff/Effect.antt =====
-- `staff_refresh` and `staff_logout` on every branch
-- (services/identity/internal/handler/refresh_logout.go).
use laundry_platform.Base.{
  ℕ, String, List, [], ◌∷◌, ◌++◌, Option, none, some, false, ◌≡◌, refl, ◌⊎◌, inl, inr, arith,
}
use laundry_platform.Db.{M, Fetch, applied, ◌>>=◌, row_or, done_or, query_pool}
use laundry_platform.Db.Runs.{
  Runs, Runs-respond, Runs-pure, Runs-respond_bind, Runs-respond_if, idle,
}
use laundry_platform.Db.Calls.{Runs-query_pool, Runs-exec_pool}
use laundry_platform.Identity.Staff.{
  Tables, Session, Response, error, json, no_content, Calls, Fresh, session_of, insert_session,
  issue_with, issue_staff_session, roles_for_user, outlets_for_user, session_by_hash, is_over,
  revoke_id, renew, staff_refresh,
}

inserted :
    (s : Session) (t : Tables) (n : ℕ) (y : Tables)
    → insert_session s t ≡ applied n y
    → y.sessions ≡ t.sessions ++ s ∷ []
unfolding insert_session
inserted s t n y e = ground arith

revoked_rows :
    (id : String) (now : ℕ) (t : Tables) (n : ℕ) (y : Tables)
    → applied 1 (record t { sessions = revoke_id id now t.sessions }) ≡ applied n y
    → y.sessions ≡ revoke_id id now t.sessions
revoked_rows id now t n y e = ground arith

module _ (calls : Calls) (fresh : Fresh) (token : String) (t₀ : Tables) where
  -- The token's session was there, not revoked and not expired.
  pub record Live (s : Session) : Type 0 where
    pub found : session_by_hash (calls.hash_token token) t₀ ≡ some s
    pub not_over : is_over s fresh.now ≡ false

  -- The sessions after the attempt to revoke the old one, whose error is ignored.
  abbrev pub Tried : Session → List Session → Type 0
  Tried s ss = (ss ≡ t₀.sessions) ⊎ (ss ≡ revoke_id s.id fresh.now t₀.sessions)

  -- One new session of the same user.
  pub record Renewed (t' : Tables) : Type 0 where
    pub session : Session
    pub live : Live session
    pub before : List Session
    pub tried : Tried session before
    pub committed : t'.sessions ≡ before ++ session_of calls fresh session.user_id ∷ []

  abbrev pub Answered : Response → Tables → Type 0
  Answered (error n c) t' =
      (t'.sessions ≡ t₀.sessions)
      ⊎ ((s : Session) × Live s × Tried s t'.sessions)
      ⊎ (n ≡ 500) × Renewed t'
  Answered (json n b) t' = (n ≡ 200) × (b.refresh_token ≡ fresh.refresh_token) × Renewed t'
  Answered no_content t' = ⊥

  module _ (s : Session) (live : Live s) (t : Tables) (tried : Tried s t.sessions) where
    issue-Runs :
        (name : String) (roles outlets : List String)
        → Runs t idle (issue_staff_session calls fresh s.user_id name roles outlets) Answered
    unfolding issue_staff_session issue_with done_or
    issue-Runs name roles outlets = go (calls.issue s.user_id roles outlets)
      where
        renewed :
            (n : ℕ) (y : Tables)
            → insert_session (session_of calls fresh s.user_id) t ≡ applied n y
            → Renewed y
        renewed n y e = record {
          session = s;
          live = live;
          before = t.sessions;
          tried = tried;
          committed = inserted (session_of calls fresh s.user_id) t n y e;
        }

        go :
            (o : Option String)
            → Runs t idle (issue_with calls fresh s.user_id name roles o) Answered
        go none = Runs-respond _ (inr (inl (s, live, tried)))
        go (some access) =
            Runs-exec_pool _ _
              (λ n y e. (
                Runs-pure _ _ (Runs-respond _ (refl, refl, renewed n y e)),
                Runs-respond_bind _ _ (inr (inr (refl, renewed n y e))),
              ))
              (λ e. Runs-respond_bind _ _ (inr (inl (s, live, tried))))
              (Runs-respond_bind _ _ (inr (inl (s, live, tried))))

    -- A query whose error is ignored.
    ask-Runs :
        {A : Type 0} (q : Tables → Option A) (f : Fetch A → M Tables Response Response)
        → ((r : Fetch A) → Runs t idle (f r) Answered)
        → Runs t idle (query_pool q >>= f) Answered
    ask-Runs q f h = Runs-query_pool _ _ (λ a e. h _) (λ e. h _) (h _)

    roles-Runs :
        (f : Fetch (List String) → M Tables Response Response)
        → ((r : Fetch (List String)) → Runs t idle (f r) Answered)
        → Runs t idle (roles_for_user s.user_id >>= f) Answered
    unfolding roles_for_user
    roles-Runs f h = ask-Runs _ f h

    outlets-Runs :
        (f : Fetch (List String) → M Tables Response Response)
        → ((r : Fetch (List String)) → Runs t idle (f r) Answered)
        → Runs t idle (outlets_for_user s.user_id >>= f) Answered
    unfolding outlets_for_user
    outlets-Runs f h = ask-Runs _ f h

    renew-Runs : Runs t idle (renew calls fresh s.user_id) Answered
    unfolding renew
    renew-Runs =
        ask-Runs _ _ (λ name. roles-Runs _ (λ roles. outlets-Runs _ (λ outlets. issue-Runs _ _ _)))

  -- Whatever the replies of the database, a refresh answers; it answers 200 only for a session that
  -- was not revoked and not expired, and then a new session of the same user is stored.
  pub staff_refresh-Runs : Runs t₀ idle (staff_refresh calls fresh token) Answered
  unfolding staff_refresh row_or
  staff_refresh-Runs =
      Runs-query_pool _ _
        (λ s found. Runs-pure _ _ (
          Runs-respond_if _ _ _ _ (λ e. inl refl)
            (λ still.
              let live : Live s = record { found = found; not_over = still } in
              Runs-exec_pool _ _
                (λ n y e.
                  let tried : Tried s y.sessions = inr (revoked_rows s.id fresh.now t₀ n y e) in
                  (renew-Runs s live y tried, renew-Runs s live y tried))
                (λ e. renew-Runs s live t₀ (inl refl)) (renew-Runs s live t₀ (inl refl)))))
        (λ e. Runs-respond_bind _ _ (inl refl)) (Runs-respond_bind _ _ (inl refl))
