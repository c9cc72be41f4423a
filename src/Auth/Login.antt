-- ===== src/Auth/Login.antt =====
-- Logins and what they leave: services/auth/internal/api/service/auth_service.go and
-- session_store.go, with repository/user_repository.go.
use full.Base.{
  ℕ, suc, ◌≤◌, ◌≡◌, refl, ◌∙◌, Bool, Option, none, some, inl, inr, Option-cases, Bool-cases, List,
  [], ◌∷◌, String, arith, leb, ◌==◌, nat_eq, string_eq, if◌then◌else◌, count_p, count_p_mono,
}
use full.Auth.Users.{User, Tables, find_sub, find_user, set_email, upsert_sub}

-- Ids are unique, and below the next value of the identity column.
pub record IsRegister (t : Tables) : Type 0 where
  pub fresh : count_p (λ (u : User). leb t.next_id u.id) t.users ≡ 0
  pub unique : (id : ℕ) → count_p (λ (u : User). u.id == id) t.users ≤ 1

set_email-count :
    (sub email : String) (p : ℕ → Bool) (us : List User)
    → count_p (λ (u : User). p u.id) (set_email sub email us) ≡ count_p (λ (u : User). p u.id) us
unfolding set_email
set_email-count sub email p [] = refl
set_email-count sub email p (u ∷ us) = ground (arith, set_email-count sub email p us)

abbrev with_email : String → Option User → Option User
with_email email none = none
with_email email (some u) = some (record u { email = email })

find_sub-set_email :
    (sub j email : String) (us : List User)
    → find_sub j (set_email sub email us)
      ≡ (if sub == j then with_email email (find_sub j us) else find_sub j us)
unfolding find_sub set_email
find_sub-set_email sub j email [] = ground arith
find_sub-set_email sub j email (u ∷ us) = ground (
  arith,
  find_sub-set_email sub j email us,
  string_eq.same_iff u.google_sub j,
  string_eq.same_iff u.google_sub sub,
  string_eq.same_iff sub j,
)

find_sub-sub :
    (sub : String) (us : List User) (u : User) → find_sub sub us ≡ some u → u.google_sub ≡ sub
unfolding find_sub
find_sub-sub sub [] u e = cc
find_sub-sub sub (v ∷ us) u e =
    ground (arith, find_sub-sub sub us u, string_eq.same_iff v.google_sub sub)

find_sub-new :
    (sub j : String) (us : List User) (u : User)
    → u.google_sub ≡ sub
    → find_sub j (u ∷ us) ≡ (if sub == j then some u else find_sub j us)
unfolding find_sub
find_sub-new sub j us u e = ground (arith, e)

-- The row found by a Google account is the one found by its id.
pub find_user-find_sub :
    (sub : String) (us : List User) (u : User)
    → find_sub sub us ≡ some u
    → count_p (λ (v : User). v.id == u.id) us ≤ 1
    → (1 ≤ count_p (λ (v : User). v.id == u.id) us) × (find_user u.id us ≡ some u)
unfolding find_sub find_user
find_user-find_sub sub [] u e h = cc
find_user-find_sub sub (v ∷ us) u e h =
    ground
      (arith, find_user-find_sub sub us u, nat_eq.same_iff v.id u.id, nat_eq.same_iff u.id u.id)

set_email-IsRegister :
    (sub email : String) (t u : Tables)
    → IsRegister t
    → u.users ≡ set_email sub email t.users
    → u.next_id ≡ suc t.next_id
    → IsRegister u
set_email-IsRegister sub email t u v e n = record {
  fresh =
      rw (e, n)
        (omega (
          arith,
          v.fresh,
          set_email-count sub email (leb (suc t.next_id)) t.users,
          count_p_mono (λ (w : User). leb (suc t.next_id) w.id) (λ w. leb t.next_id w.id) t.users
              (λ w h. ground arith),
        ));
  unique =
      λ id. rw e (omega (arith, v.unique id, set_email-count sub email (λ j. j == id) t.users));
}

new_user-IsRegister :
    (w : User) (t u : Tables)
    → IsRegister t
    → w.id ≡ t.next_id
    → u.users ≡ w ∷ t.users
    → u.next_id ≡ suc t.next_id
    → IsRegister u
new_user-IsRegister w t u v i e n = record {
  fresh = rw e (
      ground (
        arith,
        v.fresh,
        i,
        n,
        count_p_mono (λ (w : User). leb u.next_id w.id) (λ w. leb t.next_id w.id) t.users
            (λ w h. ground (arith, n)),
      ));
  unique = λ id. rw e (
      ground (
        arith,
        v.fresh,
        v.unique id,
        i,
        count_p_mono (λ (w : User). w.id == t.next_id) (λ w. leb t.next_id w.id) t.users
            (λ w h. ground arith),
        nat_eq.same_iff w.id id,
      ));
}

pub upsert_sub-IsRegister :
    (now : ℕ) (sub email : String) (t : Tables)
    → IsRegister t
    → IsRegister (upsert_sub now sub email t).1
unfolding upsert_sub
upsert_sub-IsRegister now sub email t v = elim (Option-cases (find_sub sub t.users)) [
  | inl e ↦
      new_user-IsRegister (upsert_sub now sub email t).0 t (upsert_sub now sub email t).1 v (rw e)
        (rw e) (rw e)
  | inr (u, e) ↦ set_email-IsRegister sub email t (upsert_sub now sub email t).1 v (rw e) (rw e)
]

-- The row that a login leaves for its account, and for the others.
pub find_sub-upsert_sub :
    (now : ℕ) (sub j email : String) (t : Tables)
    → find_sub j (upsert_sub now sub email t).1.users
      ≡ (if sub == j then some (upsert_sub now sub email t).0 else find_sub j t.users)
unfolding upsert_sub
find_sub-upsert_sub now sub j email t = elim (Option-cases (find_sub sub t.users)) [
  | inl e ↦
      let new : User = record {
        id = t.next_id;
        google_sub = sub;
        email = email;
        created_at = now;
      } in
      rw e (find_sub-new sub j t.users new refl)
  | inr (u, e) ↦
      rw e (ground (arith, e, find_sub-set_email sub j email t.users, string_eq.same_iff sub j))
]

-- An account that is known keeps its id.
upsert_sub-id :
    (now : ℕ) (sub email : String) (t : Tables) (u : User)
    → find_sub sub t.users ≡ some u
    → (upsert_sub now sub email t).0.id ≡ u.id
unfolding upsert_sub
upsert_sub-id now sub email t u e = rw e

-- One login: when it came, the account and its address.
abbrev pub Visit : Type 0
Visit = ℕ × String × String

unfoldable pub visit_all : List Visit → Tables → Tables
visit_all [] t = t
visit_all ((now, sub, email) ∷ vs) t = visit_all vs (upsert_sub now sub email t).1

visit-id :
    (now : ℕ) (sub j email : String) (t : Tables) (u : User)
    → find_sub j t.users ≡ some u
    → (w : User) × (find_sub j (upsert_sub now sub email t).1.users ≡ some w) × (w.id ≡ u.id)
visit-id now sub j email t u e = elim (Bool-cases (sub == j)) [
  | inl same ↦
      let known : find_sub sub t.users ≡ some u = rw ((string_eq.same_iff sub j).0 same) e in
      (
        (upsert_sub now sub email t).0,
        rw (find_sub-upsert_sub now sub j email t, same),
        upsert_sub-id now sub email t u known,
      )
  | inr other ↦ (u, rw (find_sub-upsert_sub now sub j email t, other) e, refl)
]

visit_all-keeps :
    (vs : List Visit) (t : Tables) (j : String) (u : User)
    → IsRegister t
    → find_sub j t.users ≡ some u
    → IsRegister (visit_all vs t)
      × ((w : User) × (find_sub j (visit_all vs t).users ≡ some w) × (w.id ≡ u.id))
unfolding visit_all
visit_all-keeps [] t j u v e = (v, (u, e, refl))
visit_all-keeps ((now, sub, email) ∷ vs) t j u v e =
    let (w, at, same) = visit-id now sub j email t u e in
    let (kept, (x, found, later)) =
      visit_all-keeps vs (upsert_sub now sub email t).1 j w
        (upsert_sub-IsRegister now sub email t v) at in
    (kept, (x, found, later ∙ same))

-- A Google account keeps its user id through all later logins, of whatever accounts; and no other
-- account ever has that id.
pub visit_all-id :
    (vs : List Visit) (t : Tables) (j k : String) (u x : User)
    → IsRegister t
    → find_sub j t.users ≡ some u
    → find_sub k (visit_all vs t).users ≡ some x
    → ((w : User) × (find_sub j (visit_all vs t).users ≡ some w) × (w.id ≡ u.id))
      × (x.id ≡ u.id → k ≡ j)
visit_all-id vs t j k u x v e f =
    let (kept, (w, found, same)) = visit_all-keeps vs t j u v e in
    let us = (visit_all vs t).users in
    (
      (w, found, same),
      λ h. ground (
        arith,
        find_user-find_sub j us w found (kept.unique w.id),
        find_user-find_sub k us x f (kept.unique x.id),
        find_sub-sub j us w found,
        find_sub-sub k us x f,
        same,
        h,
      ),
    )
