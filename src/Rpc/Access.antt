-- ===== src/Rpc/Access.antt =====
-- The token check of /rpc.
use go_achat_node.Prelude.{
  ◌≡◌, refl, sym, ap, ◌∙◌, Bool, true, false, Bool-cases, inl, inr, ◌&&◌, none, List, [], ◌∷◌,
  Bytes, codes, beq, beq→eq, eq→beq, All, if◌then◌else◌, ℤ, pos, ltb_ℤ, Outcome, ok, arith,
}
use go_achat_node.Rpc.{
  Req, Rsp, Node, RpcFn, Services, string, new_rsp, failed, is_password, auth, call, find, issued,
  handle_rpc,
}

-- One request, with the token and the time that "auth" would take.
abbrev pub Call : Type 0 → Type 0
Call O = Bytes × (ℤ × Req O)

if_same : {A : Type 0} (b : Bool) (x : A) → (if b then x else x) ≡ x
if_same true x = refl
if_same false x = refl

module _ {O S : Type 0} (pwd : Bytes) (others : List (Bytes × RpcFn O S))
    (services : Services O S) where
  -- The functions of rpc/server.go, "auth" among them.
  abbrev pub fn_reg : Bytes → ℤ → List (Bytes × RpcFn O S)
  fn_reg token now = (codes "auth", auth pwd token now) ∷ others

  -- The node after some requests, one after the other; what is written back is left out.
  unfoldable pub run : List (Call O) → Node S → Node S
  run [] n = n
  run ((token, (now, req)) ∷ calls) n = run calls (handle_rpc (fn_reg token now) services req n).1

  -- The call does not give the password.
  abbrev pub Outsider : Call O → Type 0
  Outsider (_, (_, req)) = (beq req.method (codes "auth") && is_password pwd req.params) ≡ false

  call-auth :
      (token : Bytes) (now : ℤ) (req : Req O) (n : Node S)
      → beq req.method (codes "auth") ≡ true
      → call (fn_reg token now) services req n ≡ auth pwd token now req n
  unfolding call find beq auth
  call-auth token now req n h =
      let name : beq (codes "auth") req.method ≡ true =
        eq→beq (codes "auth") req.method (sym (beq→eq req.method (codes "auth") h)) in
      rw name refl

  outsider_step :
      (token : Bytes) (now : ℤ) (req : Req O) (n : Node S)
      → beq pwd [] ≡ false
      → n.tokens ≡ []
      → (beq req.method (codes "auth") && is_password pwd req.params) ≡ false
      → (handle_rpc (fn_reg token now) services req n).1 ≡ n
  unfolding handle_rpc auth issued
  outsider_step token now req n locked empty outside =
      elim (Bool-cases (beq req.method (codes "auth"))) [
        | inl e ↦
            (let wrong : is_password pwd req.params ≡ false = ground arith in
              rw e (rw (call-auth token now req n e) (rw (locked, wrong) refl)))
        | inr e ↦ rw (e, empty) refl
      ]

  -- With a password set and no token issued, requests that do not give the password, however many,
  -- leave the node as it is.
  pub run-outsiders :
      (calls : List (Call O)) (n : Node S)
      → beq pwd [] ≡ false
      → n.tokens ≡ []
      → All Outsider calls
      → run calls n ≡ n
  unfolding run
  run-outsiders [] n locked empty outside = refl
  run-outsiders ((token, (now, req)) ∷ calls) n locked empty outside =
      ap (run calls) (outsider_step token now req n locked empty outside.0)
      ∙ run-outsiders calls n locked empty outside.1

  granting :
      (token : Bytes) (now : ℤ) (login : Req O) (n : Node S)
      → is_password pwd login.params ≡ true
      → auth pwd token now login n
        ≡ (ok (new_rsp login.id (string token) none), record n { tokens = (token, now) ∷ n.tokens })
  unfolding auth
  granting token now login n right = elim (Bool-cases (beq pwd [])) [
    | inl e ↦ rw e refl
    | inr e ↦ rw (e, right) refl
  ]

  pub handle_rpc-auth :
      (token : Bytes) (now : ℤ) (login : Req O) (n : Node S)
      → login.method ≡ codes "auth"
      → is_password pwd login.params ≡ true
      → handle_rpc (fn_reg token now) services login n
        ≡ (ok (new_rsp login.id (string token) none), record n { tokens = (token, now) ∷ n.tokens })
  unfolding handle_rpc
  handle_rpc-auth token now login n is_auth right =
      let name : beq login.method (codes "auth") ≡ true =
        eq→beq login.method (codes "auth") is_auth in
      rw name (call-auth token now login n name ∙ granting token now login n right)

  pub handle_rpc-auth_fail :
      (token : Bytes) (now : ℤ) (login : Req O) (n : Node S)
      → login.method ≡ codes "auth"
      → beq pwd [] ≡ false
      → is_password pwd login.params ≡ false
      → handle_rpc (fn_reg token now) services login n
        ≡ (ok (failed login.id (codes "1002") (codes "auth_fail")), n)
  unfolding handle_rpc auth
  handle_rpc-auth_fail token now login n is_auth locked wrong =
      let name : beq login.method (codes "auth") ≡ true =
        eq→beq login.method (codes "auth") is_auth in
      rw name (call-auth token now login n name ∙ rw (locked, wrong) refl)

  -- A caller with the right password gets the token, and at a time after 1970 a request with that
  -- token reaches its function.
  pub auth_then_call :
      (token : Bytes) (now : ℤ) (login req : Req O) (n : Node S)
      → login.method ≡ codes "auth"
      → is_password pwd login.params ≡ true
      → ltb_ℤ (pos 0) now ≡ true
      → req.token ≡ token
      → let (answer, n') = handle_rpc (fn_reg token now) services login n in
        (answer ≡ ok (new_rsp login.id (string token) none))
        × (handle_rpc (fn_reg token now) services req n' ≡ call (fn_reg token now) services req n')
  unfolding handle_rpc issued
  auth_then_call token now login req n is_auth right late same =
      let known : beq token req.token ≡ true = eq→beq token req.token (sym same) in
      let granted = handle_rpc-auth token now login n is_auth right in
      (
        ap (λ (p : Outcome Rsp × Node S). p.0) granted,
        rw granted (rw known (rw late (if_same (beq req.method (codes "auth")) _))),
      )
