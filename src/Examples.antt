-- ===== src/Examples.antt =====
-- The theorems at concrete inputs, by component.
mod Guards
mod ApiKeys
mod Tokens
mod Login
mod Flow
mod Saml
mod Providers
