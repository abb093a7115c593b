-- ===== src/Providers/Social.antt =====
-- src/providers/github.rs, linkedin.rs, gitlab.rs and discord.rs, which have no OpenID Connect.
-- Requests of the network are arguments, at a URL and the headers.
use armature_auth.Prelude.{
  String, ℕ, Bool, ◌&&◌, List, [], ◌∷◌, Option, none, some, Result, ok, err, ◌>>=◌, map_err,
  if◌then◌else◌,
}
use mathlib.Core.Option
use armature_auth.Error.{AuthResult, concat, http_request, invalid_response}
use armature_auth.OAuth2.{OAuth2Config, new_config, with_scopes, with_user_info_url}

-- `send` of a request for a body of a type, with the error of the transport; the body is read with
-- `json`, whose error is its message. The status is not looked at.
abbrev pub Send : Type 0 → Type 0
Send Body = String → List (String × String) → Result String (Result String Body)

module _ (J : Type 0) {Body : Type 0} where
  abbrev pub read_json : Result String (Result String Body) → AuthResult J Body
  read_json answer = map_err http_request answer >>= λ body. map_err invalid_response body

abbrev pub bearer : String → List (String × String)
bearer access_token = ("Authorization", concat "Bearer " access_token) ∷ []

-- The four configurations.
abbrev pub without_oidc :
    String → String → String → List String → String → String → String → OAuth2Config
without_oidc auth_url token_url user_info_url scopes client_id client_secret redirect_url =
    with_user_info_url
      (with_scopes (new_config client_id client_secret auth_url token_url redirect_url) scopes)
      user_info_url

abbrev pub github_config : String → String → String → OAuth2Config
github_config =
    without_oidc "https://github.com/login/oauth/authorize"
      "https://github.com/login/oauth/access_token" "https://api.github.com/user"
      ("user:email" ∷ [])

abbrev pub linkedin_config : String → String → String → OAuth2Config
linkedin_config =
    without_oidc "https://www.linkedin.com/oauth/v2/authorization"
      "https://www.linkedin.com/oauth/v2/accessToken" "https://api.linkedin.com/v2/me"
      ("r_liteprofile" ∷ "r_emailaddress" ∷ [])

abbrev pub gitlab_config : String → String → String → OAuth2Config
gitlab_config =
    without_oidc "https://gitlab.com/oauth/authorize" "https://gitlab.com/oauth/token"
      "https://gitlab.com/api/v4/user" ("read_user" ∷ [])

abbrev pub discord_config : String → String → String → OAuth2Config
discord_config =
    without_oidc "https://discord.com/api/oauth2/authorize" "https://discord.com/api/oauth2/token"
      "https://discord.com/api/users/@me" ("identify" ∷ "email" ∷ [])

pub record GitHubUser : Type 0 where
  pub id : ℕ
  pub login : String
  pub name : Option String
  pub email : Option String
  pub avatar_url : Option String
  pub bio : Option String
  pub company : Option String
  pub location : Option String

pub record GitHubEmail : Type 0 where
  pub email : String
  pub primary : Bool
  pub verified : Bool

-- `emails.iter().find(..)`, and `emails.first()`.
abbrev pub find : (GitHubEmail → Bool) → List GitHubEmail → Option GitHubEmail
find p [] = none
find p (e ∷ emails) = let rest = find p emails in if p e then some e else rest

abbrev pub first : List GitHubEmail → Option GitHubEmail
first [] = none
first (e ∷ emails) = some e

abbrev pub or_else : Option GitHubEmail → Option GitHubEmail → Option GitHubEmail
or_else none o = o
or_else (some e) o = some e

unfoldable pub choose_email : List GitHubEmail → Option String
choose_email emails =
    Option.map (λ e. e.email) (or_else (find (λ e. e.primary && e.verified) emails) (first emails))

abbrev pub github_headers : String → List (String × String)
github_headers access_token =
    ("Authorization", concat "token " access_token) ∷ ("User-Agent", "Armature-Auth") ∷ []

pub record LinkedInUser : Type 0 where
  pub id : String
  pub first_name : String
  pub last_name : String
  pub email : Option String

-- The addresses of the answer's elements.
abbrev pub EmailResponse : Type 0
EmailResponse = List String

abbrev pub first_address : EmailResponse → Option String
first_address [] = none
first_address (address ∷ rest) = some address

-- A failure of the second request leaves the user as it was.
abbrev pub with_address : LinkedInUser → Result String (Result String EmailResponse) → LinkedInUser
with_address user (err e) = user
with_address user (ok (err e)) = user
with_address user (ok (ok addresses)) = record user { email = first_address addresses }

pub record GitLabUser : Type 0 where
  pub id : ℕ
  pub username : String
  pub name : String
  pub email : String
  pub avatar_url : Option String
  pub state : String

pub record DiscordUser : Type 0 where
  pub id : String
  pub username : String
  pub discriminator : String
  pub email : Option String
  pub avatar : Option String
  pub verified : Option Bool

module _ (J : Type 0) where
  -- The addresses are asked for only if the profile has none.
  abbrev pub with_email :
      Send (List GitHubEmail) → String → GitHubUser → Option String → AuthResult J GitHubUser
  with_email get_emails access_token user (some email) = ok user
  with_email get_emails access_token user none =
      read_json J (get_emails "https://api.github.com/user/emails" (github_headers access_token))
      >>= λ emails. ok (record user { email = choose_email emails })

  unfoldable pub get_github_user :
      Send GitHubUser → Send (List GitHubEmail) → String → AuthResult J GitHubUser
  unfolding choose_email
  get_github_user get get_emails access_token =
      read_json J (get "https://api.github.com/user" (github_headers access_token)) >>= λ user.
      with_email get_emails access_token user user.email

  unfoldable pub get_linkedin_user :
      Send LinkedInUser → Send EmailResponse → String → AuthResult J LinkedInUser
  get_linkedin_user get get_email access_token =
      read_json J (get "https://api.linkedin.com/v2/me" (bearer access_token)) >>= λ user. ok (
        with_address user (
          get_email
            "https://api.linkedin.com/v2/emailAddress?q=members&projection=(elements*(handle~))"
            (bearer access_token)))

  unfoldable pub get_gitlab_user : Send GitLabUser → String → AuthResult J GitLabUser
  get_gitlab_user get access_token =
      read_json J (get "https://gitlab.com/api/v4/user" (bearer access_token))

  unfoldable pub get_discord_user : Send DiscordUser → String → AuthResult J DiscordUser
  get_discord_user get access_token =
      read_json J (get "https://discord.com/api/users/@me" (bearer access_token))
