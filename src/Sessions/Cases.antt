-- ===== src/Sessions/Cases.antt =====
-- src/auth/refresh.rs: the tables that issuing and rotating a token can leave behind.
use luxor.Base.{
  ℕ, ◌≡◌, refl, inl, inr, false, ◌||◌, Option, none, some, [], ◌∷◌, ◌++◌, Text, leb, Bool-cases,
  Option-cases, Result, Result-cases, ok, err, arith,
}
use luxor.Error.{AppError, unauthorized}
use luxor.Sessions.{
  SessionRecord, Table, is_none, session_by_hash, insert_session, revoke_family, mark_replaced,
}
use luxor.Sessions.Rotation.{
  RefreshPolicy, begins, selects, revokes, inserts, updates, commits, rolls_back, Database, Draw,
  attempt, commit, rotated_row, rotated_grant, issued_row, issue_refresh_token, rotate_session,
  rotate_refresh_token,
}

pub inserted :
    (row : SessionRecord) (t : Table) {t' : Table}
    → insert_session row t ≡ ok t'
    → t' ≡ t ++ row ∷ []
unfolding insert_session
inserted row t e = ground arith

attempt_cases {κ} :
    {A T : Type 0} (P : T → Type κ) (o : Option Text) (t : T) (r : Result AppError A × T)
    → P t
    → P r.1
    → P (attempt o t r).1
attempt_cases P none t r p q = q
attempt_cases P (some d) t r p q = p

commit_cases {κ} :
    {A : Type 0} (P : Table → Type κ) (db : Database) (t u : Table) (r : Result AppError A)
    → P t
    → P u
    → P (commit db t u r).1
commit_cases P db t u r p q = elim (Option-cases (db.fault commits)) [
  | inl e ↦ rw (e, commit) q
  | inr (d, e) ↦
      rw (e, commit) (elim (Bool-cases db.commit_applied) [ inl a ↦ rw a q | inr a ↦ rw a p ])
]

module _ {κ} (hash : Text → Text) (policy : RefreshPolicy) (db : Database) (draw : Draw)
    (P : Table → Type κ) where
  pub issue_cases :
      (user : ℕ) (t : Table)
      → P t
      → P (t ++ issued_row hash policy db draw user ∷ [])
      → P (issue_refresh_token hash policy db draw user t).1
  unfolding issue_refresh_token
  issue_cases user t p q =
      attempt_cases P (db.fault inserts) t _ p
        (elim (Result-cases (insert_session (issued_row hash policy db draw user) t)) [
          | inl (t', e) ↦ rw e (rw (inserted _ t e) q)
          | inr (d, e) ↦ rw e p
        ])

  pub rotate_cases :
      (presented : Text) (t : Table)
      → P t
      → ((s : SessionRecord)
          → session_by_hash (hash presented) t ≡ some s
          → is_none s.revoked_at ≡ false
          → P (revoke_family s.family_id draw.database_now t))
      → ((s : SessionRecord)
          → session_by_hash (hash presented) t ≡ some s
          → s.revoked_at ≡ none
          → P (
              mark_replaced s.id draw.session_id draw.database_now
                (t ++ rotated_row hash policy db draw s ∷ [])))
      → P (rotate_refresh_token hash policy db draw presented t).1
  unfolding rotate_refresh_token rotate_session
  rotate_cases presented t p replay rotated =
      attempt_cases P (db.fault begins) t _ p
        (attempt_cases P (db.fault selects) t _ p (found (session_by_hash (hash presented) t) refl))
    where
      live :
          (s : SessionRecord)
          → session_by_hash (hash presented) t ≡ some s
          → s.revoked_at ≡ none
          → P (rotate_session hash policy db draw (some s) t).1
      live s e l =
          rw (l, rotate_session)
            (elim (Bool-cases (leb s.expires_at draw.now || leb s.family_expires_at draw.now)) [
              | inl dead ↦ rw dead (attempt_cases P (db.fault rolls_back) t _ p p)
              | inr fresh ↦ rw fresh (
                  attempt_cases P (db.fault inserts) t _ p
                    (elim (Result-cases (insert_session (rotated_row hash policy db draw s) t)) [
                      | inl (t', i) ↦ rw i (
                          attempt_cases P (db.fault updates) t _ p (
                            commit_cases P db t _ (ok (rotated_grant hash policy db draw s)) p
                              (rw (inserted _ t i) (rotated s e l))))
                      | inr (d, i) ↦ rw i p
                    ]))
            ])

      found :
          (o : Option SessionRecord)
          → session_by_hash (hash presented) t ≡ o
          → P (rotate_session hash policy db draw o t).1
      found none e = p
      found (some s) e = elim (Option-cases s.revoked_at) [
        | inr (at, revoked) ↦
            rw (revoked, rotate_session)
              (attempt_cases P (db.fault revokes) t _ p
                (commit_cases P db t _ (err unauthorized) p (replay s e (rw revoked))))
        | inl l ↦ live s e l
      ]
