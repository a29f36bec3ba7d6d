-- ===== src/Sessions/Families.antt =====
-- src/auth/refresh.rs and src/db.rs: the sessions of one rotation family.
use luxor.Base.{
  ℕ, suc, ◌+◌, ◌≤◌, ◌≡◌, refl, inl, inr, Bool, true, false, ◌&&◌, Option, none, some, [], ◌∷◌, ◌++◌,
  map, Text, text_eq, filter, ◌==◌, ==→eq, if◌then◌else◌, Bool-cases, arith,
}
use mathlib.Core.List.{map-append}
use luxor.Sessions.{
  SessionRecord, Table, is_none, session_by_hash, coalesce, revoke_row, revoke_session,
  revoke_family, replace_row, mark_replaced, delete_expired_session_families,
}
use luxor.Sessions.Cases.{issue_cases, rotate_cases}
use luxor.Sessions.Rotation.{
  RefreshPolicy, Database, Draw, rotated_row, issued_row, issue_refresh_token, rotate_refresh_token,
}

-- The sessions of a family that are not revoked.
unfoldable pub active : ℕ → Table → ℕ
active family [] = 0
active family (r ∷ t) =
    (if r.family_id == family && is_none r.revoked_at then 1 else 0) + active family t

active-append :
    (family : ℕ) (t u : Table) → active family (t ++ u) ≡ active family t + active family u
unfolding active
active-append family [] u = omega arith
active-append family (r ∷ t) u = omega (arith, active-append family t u)

-- An update keeps the row's family and revives nothing.
abbrev Calms : (SessionRecord → SessionRecord) → Type 0
Calms f =
    (r : SessionRecord)
    → ((f r).family_id ≡ r.family_id)
      × (is_none (f r).revoked_at ≡ true → is_none r.revoked_at ≡ true)

active-map-le :
    (f : SessionRecord → SessionRecord) (family : ℕ) (t : Table)
    → Calms f
    → active family (map f t) ≤ active family t
unfolding active
active-map-le f family [] c = omega arith
active-map-le f family (r ∷ t) c = ground (arith, active-map-le f family t c, c r)

revoke_row-Calms : (p : SessionRecord → Bool) (now : ℕ) → Calms (revoke_row p now)
revoke_row-Calms p now r = go (p r) r.revoked_at refl
  where
    go :
        (b : Bool) (o : Option ℕ)
        → r.revoked_at ≡ o
        → ((if b then record r { revoked_at = coalesce r.revoked_at now } else r).family_id
            ≡ r.family_id)
          × (is_none
                  (if b then record r { revoked_at = coalesce r.revoked_at now } else r).revoked_at
                ≡ true
              → is_none r.revoked_at ≡ true)
    go true none e = (refl, λ h. rw e)
    go true (some at) e = (refl, λ h. absurd (ground (arith, e, h)))
    go false o e = (refl, λ h. h)

replace_row-Calms : (id next now : ℕ) → Calms (replace_row id next now)
replace_row-Calms id next now r = ground arith

-- Replacing an active session takes it away from its family.
replace-lt :
    (hash : Text) (next now : ℕ) (s : SessionRecord) (t : Table)
    → session_by_hash hash t ≡ some s
    → s.revoked_at ≡ none
    → suc (active s.family_id (map (replace_row s.id next now) t)) ≤ active s.family_id t
unfolding active session_by_hash
replace-lt hash next now s [] e h = cc
replace-lt hash next now s (r ∷ t) e h = ground (
  arith,
  replace-lt hash next now s t,
  active-map-le (replace_row s.id next now) s.family_id t (replace_row-Calms s.id next now),
)

replace_insert-le :
    (hash : Text) (next now : ℕ) (s row : SessionRecord) (t : Table) (family : ℕ)
    → session_by_hash hash t ≡ some s
    → s.revoked_at ≡ none
    → row.family_id ≡ s.family_id
    → active family (mark_replaced s.id next now (t ++ row ∷ [])) ≤ active family t
unfolding mark_replaced active
replace_insert-le hash next now s row t family e h same =
    rw
      (
        map-append (replace_row s.id next now) t (row ∷ []),
        active-append family (map (replace_row s.id next now) t),
      )
      (elim (Bool-cases (family == s.family_id)) [
        | inl its ↦
            rw (==→eq family s.family_id its) (ground (arith, replace-lt hash next now s t e h))
        | inr other ↦ ground (
          arith,
          active-map-le (replace_row s.id next now) family t (replace_row-Calms s.id next now),
        )
      ])

abbrev pub AtMostOne : Table → Type 0
AtMostOne t = (family : ℕ) → active family t ≤ 1

AtMostOne-mono :
    (t u : Table) → ((family : ℕ) → active family u ≤ active family t) → AtMostOne t → AtMostOne u
AtMostOne-mono t u h a family = omega (arith, h family, a family)

revoke-AtMostOne :
    (p : SessionRecord → Bool) (now : ℕ) (t : Table)
    → AtMostOne t
    → AtMostOne (map (revoke_row p now) t)
revoke-AtMostOne p now t =
    AtMostOne-mono t _
      (λ family. active-map-le (revoke_row p now) family t (revoke_row-Calms p now))

active-filter-le :
    (p : SessionRecord → Bool) (family : ℕ) (t : Table)
    → active family (filter p t) ≤ active family t
unfolding active filter
active-filter-le p family [] = omega arith
active-filter-le p family (r ∷ t) = ground (arith, active-filter-le p family t)

insert-AtMostOne :
    (row : SessionRecord) (t : Table)
    → active row.family_id t ≡ 0
    → AtMostOne t
    → AtMostOne (t ++ row ∷ [])
unfolding active
insert-AtMostOne row t fresh a family =
    let here : active family (row ∷ []) ≤ 1 = ground arith in
    elim (Bool-cases (row.family_id == family)) [
      | inl its ↦
          let e = ==→eq row.family_id family its in
          omega (arith, active-append family t (row ∷ []), rw e at fresh)
      | inr other ↦
          let none_here : active family (row ∷ []) ≡ 0 = ground arith in
          omega (arith, active-append family t (row ∷ []), a family)
    ]

-- What happens to the table: logins, refreshes, logouts and the periodic clean-up, in any order,
-- at any times, with any failures. A login draws a family that no session has.
pub data Step (hash : Text → Text) (policy : RefreshPolicy) : Table → Table → Type 0 where
  issue :
      (db : Database) (draw : Draw) (user : ℕ) (t : Table)
      → active draw.family_id t ≡ 0
      → Step hash policy t (issue_refresh_token hash policy db draw user t).1
  rotate :
      (db : Database) (draw : Draw) (presented : Text) (t : Table)
      → Step hash policy t (rotate_refresh_token hash policy db draw presented t).1
  revoke :
      (token : Text) (now : ℕ) (t : Table) → Step hash policy t (revoke_session (hash token) now t)
  clean : (now : ℕ) (t : Table) → Step hash policy t (delete_expired_session_families now t)

pub data Reach (hash : Text → Text) (policy : RefreshPolicy) : Table → Type 0 where
  start : Reach hash policy []
  next : {t u : Table} → Reach hash policy t → Step hash policy t u → Reach hash policy u

module _ (hash : Text → Text) (policy : RefreshPolicy) where
  Step-AtMostOne : {t u : Table} → Step hash policy t u → AtMostOne t → AtMostOne u
  unfolding revoke_session revoke_family delete_expired_session_families
  Step-AtMostOne (issue db draw user t fresh) a =
      issue_cases hash policy db draw AtMostOne user t a
        (insert-AtMostOne (issued_row hash policy db draw user) t fresh a)
  Step-AtMostOne (rotate db draw presented t) a =
      rotate_cases hash policy db draw AtMostOne presented t a
        (λ s _ _. revoke-AtMostOne (λ r. r.family_id == s.family_id) draw.database_now t a)
        (λ s found live.
          AtMostOne-mono t _
            (λ family.
              replace_insert-le (hash presented) draw.session_id draw.database_now s
                (rotated_row hash policy db draw s) t family found live refl)
            a)
  Step-AtMostOne (revoke token now t) a =
      revoke-AtMostOne (λ r. text_eq r.token_hash (hash token)) now t a
  Step-AtMostOne (clean now t) a = AtMostOne-mono t _ (λ family. active-filter-le _ family t) a

  -- From an empty table, through logins that draw a new family, refreshes, logouts and clean-ups in
  -- any order, at any times and with any database failures, no rotation family ever has two
  -- sessions that are not revoked.
  pub Reach-AtMostOne : {t : Table} → Reach hash policy t → (family : ℕ) → active family t ≤ 1
  Reach-AtMostOne start family = unfold active in omega arith
  Reach-AtMostOne (next r s) family = Step-AtMostOne s (Reach-AtMostOne r) family
