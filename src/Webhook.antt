-- ===== src/Webhook.antt =====
-- The webhooks that registries send after a push: internal/webhook. Webhook.Verify has the
-- signatures of verify.go, Webhook.Auth the middleware, Webhook.Parse the bodies of parse.go and
-- Webhook.Handler the handlers and what they do after the answer.
pub mod Verify
pub mod Auth
pub mod Parse
pub mod Handler
