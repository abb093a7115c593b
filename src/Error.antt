-- ===== src/Error.antt =====
-- src/error.rs: `AuthError` and its messages. The error of `armature_jwt` is a type parameter, with
-- its `Display` as an argument.
use Prim.Native.String
use armature_auth.Prelude.{String, Result}

pub data AuthError (JwtError : Type 0) : Type 0 where
  authentication_failed : String → AuthError JwtError
  invalid_credentials : AuthError JwtError
  user_not_found : AuthError JwtError
  inactive_user : AuthError JwtError
  unauthorized : AuthError JwtError
  forbidden : String → AuthError JwtError
  invalid_token : String → AuthError JwtError
  token_expired : AuthError JwtError
  password_hash_error : String → AuthError JwtError
  password_verify_error : String → AuthError JwtError
  jwt_error : JwtError → AuthError JwtError
  missing_role : String → AuthError JwtError
  missing_permission : String → AuthError JwtError
  configuration : String → AuthError JwtError
  http_request : String → AuthError JwtError
  invalid_response : String → AuthError JwtError
  api_key_error : String → AuthError JwtError
  two_factor_error : String → AuthError JwtError
  passwordless_error : String → AuthError JwtError
  saml_validation : String → AuthError JwtError

-- The crate's `Result<T>`.
abbrev pub AuthResult : Type 0 → Type 0 → Type 0
AuthResult JwtError A = Result (AuthError JwtError) A

abbrev pub concat : String → String → String
concat s t = String.◌++◌ s t

-- `to_string`, from the `#[error]` attributes.
unfoldable pub display : {JwtError : Type 0} → (JwtError → String) → AuthError JwtError → String
display show (authentication_failed m) = concat "Authentication failed: " m
display show invalid_credentials = "Invalid credentials"
display show user_not_found = "User not found"
display show inactive_user = "User inactive"
display show unauthorized = "Unauthorized"
display show (forbidden m) = concat "Forbidden: " m
display show (invalid_token m) = concat "Invalid token: " m
display show token_expired = "Token expired"
display show (password_hash_error m) = concat "Password hashing error: " m
display show (password_verify_error m) = concat "Password verification error: " m
display show (jwt_error e) = concat "JWT error: " (show e)
display show (missing_role m) = concat "Missing required role: " m
display show (missing_permission m) = concat "Missing permission: " m
display show (configuration m) = concat "Configuration error: " m
display show (http_request m) = concat "HTTP request error: " m
display show (invalid_response m) = concat "Invalid response: " m
display show (api_key_error m) = concat "API key error: " m
display show (two_factor_error m) = concat "Two-factor authentication error: " m
display show (passwordless_error m) = concat "Passwordless auth error: " m
display show (saml_validation m) = concat "SAML validation error: " m
