-- ===== src/Auth/Users.antt =====
-- The user table of server/src/auth.c seen through its lookups: what a new user changes for whom.
use mathlib.Core.Option
use simple_ftp.Base.{
  ℕ, ◌+◌, ◌≤◌, ◌<◌, ◌≡◌, refl, sym, ap, subst, ◌∙◌, Bool, true, false, not, ◌&&◌, ◌||◌, Option,
  none, some, some_inj, List, [], ◌∷◌, ltb, if◌then◌else◌, length, take-eq_self, Bool-cases,
  Option-cases, inl, inr, arith,
}
use simple_ftp.CString.{Bytes, str_eq, strncpy}
use simple_ftp.CString.Laws.{str_eq_iff}
use simple_ftp.Auth.{
  User, Auth, Permissions, permits, max_username, hash_password, verify_password, find_user,
  is_anonymous, user_exists, authenticate, get_user, has_permission, fill_slot, new_user, add_user,
}

-- How many slots are in use.
pub in_use_count : List User → ℕ
in_use_count [] = 0
in_use_count (u ∷ us) = (if u.in_use then 1 else 0) + in_use_count us

in_use_count-le : (us : List User) → in_use_count us ≤ length us
unfolding in_use_count
in_use_count-le [] = omega arith
in_use_count-le (u ∷ us) = ground (arith, in_use_count-le us)

abbrev pub is_some {ℓ} : {A : Type ℓ} → Option A → Bool
is_some none = false
is_some (some a) = true

is_some-map {ℓ} : {A B : Type ℓ} (f : A → B) (o : Option A) → is_some (Option.map f o) ≡ is_some o
is_some-map f none = refl
is_some-map f (some a) = refl

-- The two ways at a slot.
fill_slot_taken :
    (new u : User) (us : List User)
    → u.in_use ≡ true
    → fill_slot new (u ∷ us) ≡ Option.map (λ vs. u ∷ vs) (fill_slot new us)
unfolding fill_slot
fill_slot_taken new u us h =
    ap (λ b. if b then Option.map (λ vs. u ∷ vs) (fill_slot new us) else some (new ∷ us)) h

fill_slot_free :
    (new u : User) (us : List User) → u.in_use ≡ false → fill_slot new (u ∷ us) ≡ some (new ∷ us)
unfolding fill_slot
fill_slot_free new u us h =
    ap (λ b. if b then Option.map (λ vs. u ∷ vs) (fill_slot new us) else some (new ∷ us)) h

is_some-fill_slot :
    (new : User) (us : List User) → is_some (fill_slot new us) ≡ ltb (in_use_count us) (length us)
unfolding fill_slot in_use_count
is_some-fill_slot new [] = refl
is_some-fill_slot new (u ∷ us) = elim (Bool-cases u.in_use) [
  | inl used ↦
      ap is_some (fill_slot_taken new u us used)
      ∙ is_some-map (λ vs. u ∷ vs) (fill_slot new us)
      ∙ is_some-fill_slot new us
      ∙ ground (arith, used)
  | inr unused ↦
      ap is_some (fill_slot_free new u us unused) ∙ ground (arith, unused, in_use_count-le us)
]

image_of {ℓ} :
    {A B : Type ℓ} (f : A → B) (o : Option A) {b : B}
    → Option.map f o ≡ some b
    → (a : A) × (o ≡ some a) × (f a ≡ b)
image_of f none e = absurd (cc e)
image_of f (some a) e = (a, refl, some_inj e)

-- The table after a slot has been filled: one name more is found, the others as before.
find_user-fill_slot :
    (new : User) (us vs : List User) (n : Bytes)
    → new.in_use ≡ true
    → find_user new.username us ≡ none
    → fill_slot new us ≡ some vs
    → find_user n vs ≡ (if str_eq new.username n then some new else find_user n us)
unfolding fill_slot find_user
find_user-fill_slot new [] vs n used absent e = absurd (cc e)
find_user-fill_slot new (u ∷ us) vs n used absent e = elim (Bool-cases u.in_use) [
  | inr unused ↦
      let eq : vs ≡ (new ∷ us) = some_inj (sym e ∙ fill_slot_free new u us unused) in
      subst
        (λ ws. find_user n ws ≡ (if str_eq new.username n then some new else find_user n (u ∷ us)))
        (sym eq) (ground (arith, used, unused))
  | inl taken ↦
      let (ws, found, eq) =
        image_of (λ ws. u ∷ ws) (fill_slot new us) (sym (fill_slot_taken new u us taken) ∙ e) in
      subst
        (λ ws. find_user n ws ≡ (if str_eq new.username n then some new else find_user n (u ∷ us)))
        eq
        (ground (
          arith,
          find_user-fill_slot new us ws n used,
          absent,
          found,
          taken,
          str_eq_iff u.username n,
          str_eq_iff new.username n,
          str_eq_iff u.username new.username,
        ))
]

abbrev ShortName : Bytes → Type 0
ShortName name = length name < max_username

module _ (name password home_dir : Bytes) (permissions : Permissions) (a : Auth) where
  abbrev added : User
  added = new_user name password home_dir permissions

  -- `auth_add_user` succeeds exactly if the module has been initialized, no user has the name, and a
  -- slot is free.
  pub add_user-succeeds :
      is_some (add_user name password home_dir permissions a)
      ≡ (a.initialized && (not (user_exists name a) && ltb (in_use_count a.users) (length a.users)))
  unfolding add_user user_exists
  add_user-succeeds = elim (Bool-cases a.initialized) [
    | inr unready ↦ rw unready refl
    | inl ready ↦ rw ready (elim (Option-cases (find_user name a.users)) [
      | inl absent ↦ rw absent (
          is_some-map (λ us. record a { users = us }) (fill_slot added a.users)
          ∙ is_some-fill_slot added a.users)
      | inr (u, present) ↦ rw present refl
    ])
  ]

  -- What `auth_add_user` has done if it succeeds.
  record Added (b : Auth) : Type 0 where
    started : a.initialized ≡ true
    still : b.initialized ≡ true
    anonymous : b.anonymous_enabled ≡ a.anonymous_enabled
    virtual : b.virtual_anonymous ≡ a.virtual_anonymous
    found :
        (n : Bytes)
        → find_user n b.users ≡ (if str_eq name n then some added else find_user n a.users)

  added_lem :
      (b : Auth) → ShortName name → add_user name password home_dir permissions a ≡ some b → Added b
  unfolding add_user
  added_lem b short e = elim (Bool-cases a.initialized) [
    | inr unready ↦ absurd (cc (rw unready at e))
    | inl ready ↦ elim (Option-cases (find_user name a.users)) [
      | inr (u, present) ↦ absurd (cc (rw (ready, present) at e))
      | inl absent ↦
          let (us, filled, eq) =
            image_of (λ us. record a { users = us }) (fill_slot added a.users)
              (rw (ready, absent) at e) in
          subst Added eq (of_filled us ready absent filled)
    ]
  ]
    where
      kept : strncpy max_username name ≡ name
      kept = take-eq_self 255 name (omega (arith, short))

      of_filled :
          (us : List User)
          → a.initialized ≡ true
          → find_user name a.users ≡ none
          → fill_slot added a.users ≡ some us
          → Added (record a { users = us })
      of_filled us ready absent filled = record {
        started = ready;
        still = ready;
        anonymous = refl;
        virtual = refl;
        found = λ n.
            find_user-fill_slot added a.users us n refl (rw kept absent) filled
            ∙ ap (λ x. if str_eq x n then some added else find_user n a.users) kept;
      }

  -- After a successful `auth_add_user` with a name that fits its field, that name logs in with exactly
  -- the passwords that agree with the stored one, or with any if it is the enabled anonymous user; and
  -- every other name logs in exactly as before.
  pub add_user-authenticate :
      (b : Auth)
      → length name < max_username
      → add_user name password home_dir permissions a ≡ some b
      → (n q : Bytes)
      → authenticate n q b ≡ (
          if str_eq name n
          then (a.anonymous_enabled && is_anonymous n) || verify_password q (hash_password password)
          else authenticate n q a)
  unfolding authenticate
  add_user-authenticate b short e n q =
      let v = added_lem b short e in
      rw (v.still, v.anonymous, v.found n, v.started)
        (elim (Bool-cases (a.anonymous_enabled && is_anonymous n)) [
          | inl opened ↦ rw opened (ground arith)
          | inr closed ↦ rw closed (elim (Bool-cases (str_eq name n)) [
            | inl same ↦ rw same refl
            | inr other ↦ rw other refl
          ])
        ])

  -- After a successful `auth_add_user` with a name that fits its field, that name has exactly the given
  -- permissions, and every other name those that it had.
  pub add_user-has_permission :
      (b : Auth)
      → length name < max_username
      → add_user name password home_dir permissions a ≡ some b
      → (n : Bytes) (asked : Permissions)
      → has_permission n asked b
        ≡ (if str_eq name n then permits permissions asked else has_permission n asked a)
  unfolding has_permission
  add_user-has_permission b short e n asked =
      let v = added_lem b short e in
      rw (v.still, v.found n, v.started)
        (elim (Bool-cases (str_eq name n)) [
          | inl same ↦ rw same refl
          | inr other ↦ rw other (elim (Option-cases (find_user n a.users)) [
            | inl absent ↦ rw absent (rw (v.anonymous, v.virtual) refl)
            | inr (u, present) ↦ rw present refl
          ])
        ])

-- Whoever `auth_authenticate` lets in, `auth_get_user` knows: a session that has passed the first call
-- is not turned away by the second, as long as the table stays the same.
pub authenticate-get_user :
    (n q : Bytes) (a : Auth) → authenticate n q a ≡ true → is_some (get_user n a) ≡ true
unfolding authenticate get_user
authenticate-get_user n q a h = elim (Bool-cases a.initialized) [
  | inr unready ↦ absurd (cc (rw unready at h))
  | inl ready ↦ rw ready (elim (Option-cases (find_user n a.users)) [
    | inr (u, present) ↦ rw present refl
    | inl absent ↦ rw absent (elim (Bool-cases (a.anonymous_enabled && is_anonymous n)) [
      | inl opened ↦ rw opened refl
      | inr closed ↦ absurd (cc (rw (ready, closed, absent) at h))
    ])
  ])
]
