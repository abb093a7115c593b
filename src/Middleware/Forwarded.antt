-- ===== src/Middleware/Forwarded.antt =====
-- src/middleware.rs: when `handle` reads no credential, and the requests that it forwards, described
-- without `attach` and `reject`.
use armature_auth.Prelude.{
  codes, ℕ, List, Option-cases, Result-cases, Bool-cases, from_utf8, split_once, is_empty, trim,
  eq_ignore_ascii_case, ap, sym, inl, inr, ◌≢◌, ◌↔◌, ◌≡◌, refl, ◌∙◌, none, some, ok,
}
use armature_auth.User.{UserContext}
use armature_auth.Http.{Core, HttpRequest, Kind}
use armature_auth.Middleware.{absent, attach, credential, credential_of, reject}

credential_of-present : (value : List ℕ) → credential_of value ≢ absent
unfolding credential_of
credential_of-present value h = elim (Option-cases (from_utf8 value)) [
  | inl other ↦ (let stop = rw (credential_of, other) at h in cc)
  | inr (text, e) ↦ elim (Option-cases (split_once b' ' text)) [
    | inl whole ↦ (let stop = rw (credential_of, e, whole) at h in cc)
    | inr ((scheme, rest), f) ↦ elim (Bool-cases (eq_ignore_ascii_case scheme (codes "bearer"))) [
      | inr other ↦ (let stop = rw (credential_of, e, f, other) at h in cc)
      | inl named ↦ elim (Bool-cases (is_empty (trim rest))) [
        | inl empty ↦ (let stop = rw (credential_of, e, f, named, empty) at h in cc)
        | inr token ↦ (let stop = rw (credential_of, e, f, named, token) at h in cc)
      ]
    ]
  ]
]

module _ {Value : Type 0} (core : Core Value) where
  -- No credential is read exactly where there is no `Authorization` header.
  pub credential-absent_iff :
      (req : HttpRequest core)
      → (credential core req ≡ absent) ↔ (core.get_unique "authorization" req.headers ≡ ok none)
  unfolding credential
  credential-absent_iff req = elim (Result-cases (core.get_unique "authorization" req.headers)) [
    | inr (error, e) ↦
        ((λ h. let stop = rw (credential, e) at h in cc), λ h. let stop = sym e ∙ h in cc)
    | inl (found, e) ↦ elim (Option-cases found) [
      | inl missing ↦ ((λ h. e ∙ ap ok missing), λ h. rw (credential, h) refl)
      | inr (value, f) ↦ (
        (λ h. absurd (credential_of-present value (rw (credential, e, f) at h))),
        λ h. let stop = sym (e ∙ ap ok f) ∙ h in cc,
      )
    ]
  ]

  -- The request with a user: the same headers and the same mark, and the user, the user's roles and
  -- the user's identifier in the extensions.
  pub record IsAttached (req : HttpRequest core) (u : UserContext Value) (out : HttpRequest core)
      : Type 0 where
    pub kept_headers : out.headers ≡ req.headers
    pub kept_rest : out.rest ≡ req.rest
    pub has_user : core.get Kind.user_context out.extensions ≡ some u
    pub has_roles : core.get Kind.request_roles out.extensions ≡ some (core.new_roles u.roles)
    pub has_identity :
        core.get Kind.verified_identity out.extensions ≡ some (core.new_identity u.user_id)
    pub kept_mark :
        core.get Kind.rejected_credentials out.extensions
        ≡ core.get Kind.rejected_credentials req.extensions

  -- The request with its credentials rejected: no `Authorization` header is left, the mark is in the
  -- extensions, and all else is as it was.
  pub record IsRejected (req out : HttpRequest core) : Type 0 where
    pub stripped : out.headers ≡ core.remove_all "authorization" req.headers
    pub no_credential : core.get_unique "authorization" out.headers ≡ ok none
    pub same_rest : out.rest ≡ req.rest
    pub marked : core.get Kind.rejected_credentials out.extensions ≡ some tt
    pub same_user :
        core.get Kind.user_context out.extensions ≡ core.get Kind.user_context req.extensions
    pub same_roles :
        core.get Kind.request_roles out.extensions ≡ core.get Kind.request_roles req.extensions
    pub same_identity :
        core.get Kind.verified_identity out.extensions
        ≡ core.get Kind.verified_identity req.extensions

  pub attach-IsAttached :
      (req : HttpRequest core) (u : UserContext Value) → IsAttached req u (attach core req u)
  attach-IsAttached req u =
      let x = req.extensions in
      let roles = core.new_roles u.roles in
      let identity = core.new_identity u.user_id in
      let x1 = core.insert Kind.user_context u x in
      let x2 = core.insert Kind.request_roles roles x1 in
      record {
        kept_headers = refl;
        kept_rest = refl;
        has_user =
            core.get-insert_ne Kind.user_context Kind.verified_identity identity x2 (λ e. cc)
            ∙ core.get-insert_ne Kind.user_context Kind.request_roles roles x1 (λ e. cc)
            ∙ core.get-insert_self Kind.user_context u x;
        has_roles =
            core.get-insert_ne Kind.request_roles Kind.verified_identity identity x2 (λ e. cc)
            ∙ core.get-insert_self Kind.request_roles roles x1;
        has_identity = core.get-insert_self Kind.verified_identity identity x2;
        kept_mark =
            core.get-insert_ne Kind.rejected_credentials Kind.verified_identity identity x2
              (λ e. cc)
            ∙ core.get-insert_ne Kind.rejected_credentials Kind.request_roles roles x1 (λ e. cc)
            ∙ core.get-insert_ne Kind.rejected_credentials Kind.user_context u x (λ e. cc);
      }

  pub reject-IsRejected : (req : HttpRequest core) → IsRejected req (reject core req)
  reject-IsRejected req =
      let x = req.extensions in
      record {
        stripped = refl;
        no_credential = core.get_unique-remove_all "authorization" req.headers;
        same_rest = refl;
        marked = core.get-insert_self Kind.rejected_credentials tt req.extensions;
        same_user = core.get-insert_ne Kind.user_context Kind.rejected_credentials tt x (λ e. cc);
        same_roles = core.get-insert_ne Kind.request_roles Kind.rejected_credentials tt x (λ e. cc);
        same_identity =
            core.get-insert_ne Kind.verified_identity Kind.rejected_credentials tt x (λ e. cc);
      }
