-- ===== src/Providers/Emails.antt =====
-- src/providers/github.rs: the address that a GitHub user gets.
use mathlib.Core.Option
use mathlib.Core.Path.{subst}
use armature_auth.Prelude.{
  String, Bool, true, false, ◌&&◌, ◌≡◌, refl, sym, ap, ◌⊎◌, inl, inr, List, [], ◌∷◌, ◌++◌, Option,
  none, some, Result, ok, err, >>=-eq-ok, ok-injective, Bool-cases, Option-cases, All,
}
use armature_auth.Providers.Social.{
  GitHubEmail, GitHubUser, Send, choose_email, find, first, get_github_user, github_headers,
  read_json, with_email,
}

abbrev pub is_preferred : GitHubEmail → Bool
is_preferred e = e.primary && e.verified

abbrev pub IsNotPreferred : GitHubEmail → Type 0
IsNotPreferred e = is_preferred e ≡ false

-- The first address that is both primary and verified.
abbrev pub IsFirstPreferred : List GitHubEmail → GitHubEmail → Type 0
IsFirstPreferred emails e =
    (before : List GitHubEmail) × (after : List GitHubEmail) × (emails ≡ before ++ (e ∷ after))
    × All IsNotPreferred before
    × (is_preferred e ≡ true)

find_cases :
    (emails : List GitHubEmail)
    → ((e : GitHubEmail) × (find is_preferred emails ≡ some e) × IsFirstPreferred emails e)
      ⊎ ((find is_preferred emails ≡ none) × All IsNotPreferred emails)
find_cases [] = inr (refl, tt)
find_cases (e ∷ emails) = elim (Bool-cases (is_preferred e)) [
  | inl on ↦ inl (e, rw on refl, ([], emails, refl, tt, on))
  | inr off ↦ elim (find_cases emails) [
    | inl (f, found, (before, after, split, none_before, preferred)) ↦
        inl (f, rw off found, (e ∷ before, after, ap (◌∷◌ e) split, (off, none_before), preferred))
    | inr (missing, rest) ↦ inr (rw off missing, (off, rest))
  ]
]

-- The address that is chosen: the first one that is primary and verified, or, when there is none, the
-- first of the list, whether it is verified or not.
abbrev pub IsChosen : List GitHubEmail → Option String → Type 0
IsChosen emails chosen =
    ((e : GitHubEmail) × IsFirstPreferred emails e × (chosen ≡ some e.email))
    ⊎ (All IsNotPreferred emails × (chosen ≡ Option.map (λ e. e.email) (first emails)))

choose_email-IsChosen : (emails : List GitHubEmail) → IsChosen emails (choose_email emails)
unfolding choose_email
choose_email-IsChosen emails = elim (find_cases emails) [
  | inl (e, found, preferred) ↦ inl (e, preferred, rw (choose_email, found) refl)
  | inr (missing, all_others) ↦ inr (all_others, rw (choose_email, missing) refl)
]

module _ (J : Type 0) where
  read_json-eq-ok :
      {Body : Type 0} (answer : Result String (Result String Body)) (body : Body)
      → read_json J answer ≡ ok body
      → answer ≡ ok (ok body)
  read_json-eq-ok (ok (ok b)) body h = ap (λ v. ok (ok v)) (ok-injective h)
  read_json-eq-ok (ok (err e)) body h = cc
  read_json-eq-ok (err e) body h = cc

  -- A GitHub user has the address of the profile, if the profile has one. Else the address is chosen
  -- from the answer of the second request: the first one that is primary and verified, or, when no
  -- address is both, the first of the list, verified or not.
  pub get_github_user-eq-ok :
      (get : Send GitHubUser) (get_emails : Send (List GitHubEmail)) (access_token : String)
      (user : GitHubUser)
      → get_github_user J get get_emails access_token ≡ ok user
      → (profile : GitHubUser) × (get "https://api.github.com/user" (github_headers access_token)
          ≡ ok (ok profile))
        × (((email : String) × (profile.email ≡ some email) × (user ≡ profile))
            ⊎ ((emails : List GitHubEmail) × (profile.email ≡ none)
                × (get_emails "https://api.github.com/user/emails" (github_headers access_token)
                    ≡ ok (ok emails))
                × IsChosen emails user.email))
  unfolding get_github_user
  get_github_user-eq-ok get get_emails access_token user h =
      let (profile, read, h1) =
        >>=-eq-ok (read_json J (get "https://api.github.com/user" (github_headers access_token))) _
          h in
      (
        profile,
        read_json-eq-ok _ profile read,
        elim (Option-cases profile.email) [
          | inr (email, e) ↦ inl (email, e, sym (ok-injective (rw (with_email, e) at h1)))
          | inl missing ↦
              let (emails, listed, out) =
                >>=-eq-ok
                  (read_json J
                    (get_emails "https://api.github.com/user/emails" (github_headers access_token)))
                  _ (rw (with_email, missing) at h1) in
              inr (
                emails,
                missing,
                read_json-eq-ok _ emails listed,
                subst (IsChosen emails) (ap (λ u. u.email) (ok-injective out))
                    (choose_email-IsChosen emails),
              )
        ],
      )
