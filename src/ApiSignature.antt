-- ===== src/ApiSignature.antt =====
-- framework/api_signature/core.py: signed requests. Nonce is `MemoryNonceStore`, Signature is
-- `generate_signature` and `verify_signature`, Verifier is `SignatureVerifier`.
mod Nonce
mod Signature
mod Verifier
mod Check
mod Replay
mod Examples
