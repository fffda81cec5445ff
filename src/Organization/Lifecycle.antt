-- ===== src/Organization/Lifecycle.antt =====
-- The life of an organization: which statuses can follow which.
use multi_tenant_collaborati.Common.{
  ℕ, String, ◌≡◌, refl, sym, subst, true, ◌||◌, Option, none, some, List, [], ◌∷◌, arith,
  Bool-cases, Option-cases, ◌⊎◌, inl, inr, select_first-update_where, mem-select_first,
}
use multi_tenant_collaborati.Organization.Row.{
  OrgRow, OrgStatus, active, suspended, offboarding, deleted, UpdateOrgData, org_status_eq,
  is_live_org, find_by_id, update, update_status, at_version, apply_update, is_empty,
}
use multi_tenant_collaborati.Organization.Service.{
  OrgDb, get_org, suspend_org, reactivate_org, start_offboarding, update_org, updated_or_conflict,
}

pub data OrgRequest : Type 0 where
  suspend : (org : ℕ) (reason : String) (actor : Option ℕ) → OrgRequest
  reactivate : (org : ℕ) (actor : Option ℕ) → OrgRequest
  offboard : (now org : ℕ) (actor : Option ℕ) → OrgRequest
  change : (org : ℕ) (d : UpdateOrgData) (expected : ℕ) → OrgRequest

unfoldable pub run : OrgRequest → OrgDb → OrgDb
run (suspend org reason actor) db = (suspend_org org reason actor db).1
run (reactivate org actor) db = (reactivate_org org actor db).1
run (offboard now org actor) db = (start_offboarding now org actor db).1
run (change org d expected) db = (update_org org d expected db).1

unfoldable pub run_all : List OrgRequest → OrgDb → OrgDb
unfolding run
run_all [] db = db
run_all (r ∷ rs) db = run_all rs (run r db)

-- The transitions of the service, one at a time.
pub data OrgStep : OrgStatus → OrgStatus → Type 0 where
  suspends : OrgStep active suspended
  reactivates : OrgStep suspended active
  offboards_active : OrgStep active offboarding
  offboards_suspended : OrgStep suspended offboarding

pub data OrgPath : OrgStatus → OrgStatus → Type 0 where
  stays : {s : OrgStatus} → OrgPath s s
  steps : {s t u : OrgStatus} → OrgStep s t → OrgPath t u → OrgPath s u

-- The organization's row is there with a status that is the same or one step further.
abbrev pub IsNext : ℕ → OrgStatus → List OrgRow → Type 0
IsNext org s rows =
    (o : OrgRow) × (find_by_id org rows ≡ some o) × ((o.status ≡ s) ⊎ OrgStep s o.status)

find-update_status :
    (org other : ℕ) (status : OrgStatus) (started : Option ℕ) (rows : List OrgRow) (o : OrgRow)
    → find_by_id org rows ≡ some o
    → (o' : OrgRow) × (find_by_id org (update_status other status started none rows) ≡ some o')
      × (((other ≡ org) × (o'.status ≡ status)) ⊎ (o'.status ≡ o.status))
unfolding find_by_id update_status
find-update_status org other status started rows o e =
    let found =
      select_first-update_where (is_live_org org) (is_live_org other)
        (λ x. record x {
          status = status;
          offboarding_started_at = elim started [
            | none ↦ x.offboarding_started_at
            | some t ↦ some t
          ];
          deleted_at = x.deleted_at;
        })
        rows o (λ x. refl) e in
    let (m, h) = mem-select_first (is_live_org org) rows e in
    elim (Bool-cases (is_live_org other o)) [
      | inl hit ↦ (_, rw hit at found, inl (ground arith, refl))
      | inr miss ↦ (_, rw miss at found, inr refl)
    ]

-- A request leaves the rows alone, or moves the organization that it names one step.
abbrev IsMove : List OrgRow → List OrgRow → Type 0
IsMove rows rows' =
    (rows' ≡ rows)
    ⊎ ((org : ℕ) × (x : OrgRow) × (status : OrgStatus) × (started : Option ℕ) × (find_by_id org rows
          ≡ some x)
        × OrgStep x.status status
        × (rows' ≡ update_status org status started none rows))

IsNext-IsMove :
    (org : ℕ) (rows rows' : List OrgRow) (o : OrgRow)
    → find_by_id org rows ≡ some o
    → IsMove rows rows'
    → IsNext org o.status rows'
IsNext-IsMove org rows rows' o e (inl same) = (o, rw same e, inl refl)
IsNext-IsMove org rows rows' o e (inr (other, x, status, started, found, step, moved)) =
    let (o', e', how) = find-update_status org other status started rows o e in
    (
      o',
      rw moved e',
      elim how [
        | inl (same, to) ↦
            let same_row : x ≡ o = ground arith in
            inr (
              subst (λ s. OrgStep o.status s) (sym to)
                (subst (λ r. OrgStep r.status status) same_row step))
        | inr kept ↦ inl kept
      ],
    )

org_status_active : (s : OrgStatus) → org_status_eq s active ≡ true → s ≡ active
org_status_active active h = refl
org_status_active suspended h = absurd (ground arith)
org_status_active offboarding h = absurd (ground arith)
org_status_active deleted h = absurd (ground arith)

org_status_suspended : (s : OrgStatus) → org_status_eq s suspended ≡ true → s ≡ suspended
org_status_suspended active h = absurd (ground arith)
org_status_suspended suspended h = refl
org_status_suspended offboarding h = absurd (ground arith)
org_status_suspended deleted h = absurd (ground arith)

suspend_org_moves :
    (org : ℕ) (reason : String) (actor : Option ℕ) (db : OrgDb)
    → IsMove db.organizations (suspend_org org reason actor db).1.organizations
unfolding suspend_org get_org
suspend_org_moves org reason actor db = elim (Option-cases (find_by_id org db.organizations)) [
  | inl missing ↦ inl (ground arith)
  | inr (x, e) ↦ elim (Bool-cases (org_status_eq x.status active)) [
    | inr may_not ↦ inl (ground arith)
    | inl may ↦ inr (
      org,
      x,
      suspended,
      none,
      e,
      subst (λ s. OrgStep s suspended) (sym (org_status_active x.status may)) suspends,
      ground arith,
    )
  ]
]

reactivate_org_moves :
    (org : ℕ) (actor : Option ℕ) (db : OrgDb)
    → IsMove db.organizations (reactivate_org org actor db).1.organizations
unfolding reactivate_org get_org
reactivate_org_moves org actor db = elim (Option-cases (find_by_id org db.organizations)) [
  | inl missing ↦ inl (ground arith)
  | inr (x, e) ↦ elim (Bool-cases (org_status_eq x.status suspended)) [
    | inr may_not ↦ inl (ground arith)
    | inl may ↦ inr (
      org,
      x,
      active,
      none,
      e,
      subst (λ s. OrgStep s active) (sym (org_status_suspended x.status may)) reactivates,
      ground arith,
    )
  ]
]

offboards :
    (s : OrgStatus)
    → (org_status_eq s active || org_status_eq s suspended) ≡ true
    → OrgStep s offboarding
offboards active h = offboards_active
offboards suspended h = offboards_suspended
offboards offboarding h = absurd (ground arith)
offboards deleted h = absurd (ground arith)

start_offboarding_moves :
    (now org : ℕ) (actor : Option ℕ) (db : OrgDb)
    → IsMove db.organizations (start_offboarding now org actor db).1.organizations
unfolding start_offboarding get_org
start_offboarding_moves now org actor db = elim (Option-cases (find_by_id org db.organizations)) [
  | inl missing ↦ inl (ground arith)
  | inr (x, e) ↦
      elim (Bool-cases (org_status_eq x.status active || org_status_eq x.status suspended)) [
        | inr may_not ↦ inl (ground arith)
        | inl may ↦ inr (org, x, offboarding, some now, e, offboards x.status may, ground arith)
      ]
]

find-update :
    (org other expected : ℕ) (d : UpdateOrgData) (rows : List OrgRow) (o : OrgRow)
    → find_by_id org rows ≡ some o
    → IsNext org o.status (update other d expected rows).1
unfolding find_by_id update apply_update
find-update org other expected d rows o e =
    let found =
      select_first-update_where (is_live_org org) (at_version other expected) (apply_update d) rows
        o (λ x. refl) e in
    elim (Bool-cases (is_empty d)) [
      | inl nothing ↦ (o, ground arith, inl refl)
      | inr some_field ↦ elim (Bool-cases (at_version other expected o)) [
        | inl hit ↦ (apply_update d o, ground arith, inl refl)
        | inr miss ↦ (o, ground arith, inl refl)
      ]
    ]

update_org_rows :
    (org expected : ℕ) (d : UpdateOrgData) (db : OrgDb)
    → (update_org org d expected db).1.organizations ≡ (update org d expected db.organizations).1
unfolding update_org updated_or_conflict get_org
update_org_rows org expected d db = ground arith

-- One request, on whatever organization it acts, leaves every organization that there is where it is
-- or moves it one step.
run-IsNext :
    (r : OrgRequest) (org : ℕ) (db : OrgDb) (o : OrgRow)
    → find_by_id org db.organizations ≡ some o
    → IsNext org o.status (run r db).organizations
unfolding run
run-IsNext (suspend other reason actor) org db o e =
    IsNext-IsMove org db.organizations _ o e (suspend_org_moves other reason actor db)
run-IsNext (reactivate other actor) org db o e =
    IsNext-IsMove org db.organizations _ o e (reactivate_org_moves other actor db)
run-IsNext (offboard now other actor) org db o e =
    IsNext-IsMove org db.organizations _ o e (start_offboarding_moves now other actor db)
run-IsNext (change other d expected) org db o e =
    rw (update_org_rows other expected d db) (find-update org other expected d db.organizations o e)

-- After any sequence of suspensions, reactivations, offboardings and updates, on any organizations, an
-- organization that was there is still there, and its status is reached from the one it had by the
-- transitions active to suspended and back, and active or suspended to offboarding.
pub lifecycle :
    (rs : List OrgRequest) (org : ℕ) (db : OrgDb) (o : OrgRow)
    → find_by_id org db.organizations ≡ some o
    → (o' : OrgRow) × (find_by_id org (run_all rs db).organizations ≡ some o')
      × OrgPath o.status o'.status
unfolding run_all
lifecycle [] org db o e = (o, e, stays)
lifecycle (r ∷ rs) org db o e =
    let (m, em, how) = run-IsNext r org db o e in
    let (o', e', path) = lifecycle rs org (run r db) m em in
    (
      o',
      e',
      elim how [
        | inl same ↦ subst (λ s. OrgPath s o'.status) same path
        | inr step ↦ steps step path
      ],
    )

offboarding_ends : {s t : OrgStatus} → OrgPath s t → s ≡ offboarding → t ≡ offboarding
offboarding_ends stays e = e
offboarding_ends (steps suspends path) e = absurd (ground arith)
offboarding_ends (steps reactivates path) e = absurd (ground arith)
offboarding_ends (steps offboards_active path) e = absurd (ground arith)
offboarding_ends (steps offboards_suspended path) e = absurd (ground arith)

-- An organization that is offboarding stays so, whatever sequence of these requests follows.
pub offboarding_is_final :
    (rs : List OrgRequest) (org : ℕ) (db : OrgDb) (o : OrgRow)
    → find_by_id org db.organizations ≡ some o
    → o.status ≡ offboarding
    → (o' : OrgRow) × (find_by_id org (run_all rs db).organizations ≡ some o')
      × (o'.status ≡ offboarding)
offboarding_is_final rs org db o e s =
    let (o', e', path) = lifecycle rs org db o e in (o', e', offboarding_ends path s)
