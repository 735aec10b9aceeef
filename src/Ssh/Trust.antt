-- ===== src/Ssh/Trust.antt =====
-- Which host keys a connection accepts.
use kg.Base.{true, List, [], ◌≡◌, ◌≢◌, ◌⊎◌, arith, Result, ok, err, Text, Result-cases, inl, inr}
use kg.Api.{HostKeyPolicy, strict, tofu, insecure, unknown_policy}
use kg.Platform.{Error, >>=-eq-ok}
use kg.Platform.Remote.{SshConfig}
use kg.Ssh.{
  Transport, Connection, same_authorized_key, compare_keys, host_key_callback, auth_methods, dial,
  check_policy, dial_with, open_session, open_tcp, dial_address, auth_passwords,
}

module _ {W C S K : Type 0} (t : Transport W C S K) where
  -- A key that the policy of a configuration lets pass.
  abbrev pub Trusts : HostKeyPolicy → SshConfig → Text → Type 0
  Trusts insecure cfg key = Unit
  Trusts strict cfg key =
      (cfg.known_public_key ≢ []) × (same_authorized_key t cfg.known_public_key key ≡ true)
  Trusts tofu cfg key =
      (cfg.known_public_key ≡ []) ⊎ (same_authorized_key t cfg.known_public_key key ≡ true)
  Trusts (unknown_policy name) cfg key = ¬ Unit

  callback-Trusts :
      (p : HostKeyPolicy) (hostname : Text) (cfg : SshConfig) (key : Text)
      → check_policy t p hostname cfg key ≡ ok tt
      → Trusts p cfg key
  unfolding compare_keys
  callback-Trusts insecure hostname cfg key h = tt
  callback-Trusts strict hostname cfg key h = ground arith
  callback-Trusts tofu hostname cfg key h = ground arith
  callback-Trusts (unknown_policy name) hostname cfg key h = cc

  -- The handshake succeeds only if the callback accepted the key that the server presented.
  abbrev pub ChecksKeys : Type 0
  ChecksKeys =
      (c : C) (user : Text) (keys : List K) (passwords : List Text)
      (callback : Text → Result Error (Unit {0})) (w w' : W) (s : S)
      → t.new_client_conn c user keys passwords callback w ≡ (ok s, w')
      → callback (t.presented s) ≡ ok tt

  open_session-Trusts :
      ChecksKeys
      → (cfg : SshConfig) (addr : Text) (keys : List K) (c : C) (w w' : W) (conn : Connection S)
      → open_session t cfg addr keys c w ≡ (ok conn, w')
      → Trusts cfg.policy cfg conn.host_key
  unfolding open_session host_key_callback
  open_session-Trusts checks cfg addr keys c w w' conn h =
      let callback = host_key_callback t cfg addr in
      let m = t.new_client_conn c cfg.user keys (auth_passwords t cfg) callback w in
      elim (Result-cases m.0) [
        | inl (s, e) ↦ ground (
          arith,
          callback-Trusts cfg.policy addr cfg conn.host_key,
          checks c cfg.user keys (auth_passwords t cfg) callback w m.1 s (ground arith),
        )
        | inr (x, e) ↦ ground arith
      ]

  dial_with-Trusts :
      ChecksKeys
      → (cfg : SshConfig) (keys : Result Error (List K)) (w w' : W) (conn : Connection S)
      → dial_with t cfg keys w ≡ (ok conn, w')
      → Trusts cfg.policy cfg conn.host_key
  dial_with-Trusts checks cfg (err e) w w' conn h = cc
  dial_with-Trusts checks cfg (ok keys) w w' conn h =
      let addr = dial_address t cfg in
      let (c, v, _, opened) = >>=-eq-ok (open_tcp t addr) (open_session t cfg addr keys) w h in
      open_session-Trusts checks cfg addr keys c v w' conn opened

  -- A dialled host presented a key that the policy lets pass: any key under Insecure, the configured
  -- key under Strict, and under TOFU the pinned key or, with none pinned, any. Under a policy of
  -- another name no host is dialled.
  pub dial-Trusts :
      ChecksKeys
      → (cfg : SshConfig) (w w' : W) (conn : Connection S) → dial t cfg w ≡ (ok conn, w')
      → Trusts cfg.policy cfg conn.host_key
  unfolding dial
  dial-Trusts checks cfg w w' conn h = dial_with-Trusts checks cfg (auth_methods t cfg) w w' conn h
