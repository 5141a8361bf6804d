-- ===== src/App/Bootnodes.antt =====
-- main.go: what a node that a command starts is configured with.
use mathlib.Core.Path.{subst}
use Prim.Native.Nat.{◌^◌}
use go_achat_node.Prelude.{
  ℕ, suc, ◌+◌, ◌<◌, ◌≡◌, ◌≢◌, ne_of_beq, inl, inr, refl, sym, ap, ◌∙◌, true, false, Bool-cases,
  some, [], Bytes, beq, pos, negsuc, beq→eq, ok, ok_inj, panic, Error, arith,
}
use go_achat_node.Rpc.Routing.{intercalate, intercalate-split, AllFree, split-AllFree}
use go_achat_node.App.Config.{
  Flags, Config, def_bootnodes, uint64, config_of, Started, Command, default_command, attach,
  console, bootnode, achat, starting, node_of,
}

-- The port of the configuration is that of the flag, a 64-bit `int` that is not negative; a negative
-- one wraps around.
pub uint64_lem : (n : ℕ) → n < 2 ^ 63 → (uint64 (pos n) ≡ n) × (uint64 (negsuc n) + suc n ≡ 2 ^ 64)
unfolding uint64
uint64_lem n h = (omega arith, omega arith)

-- The commands that start a node which discovers.
abbrev pub IsDiscovering : Command → Type 0
IsDiscovering default_command = Unit
IsDiscovering console = Unit
IsDiscovering _ = ⊥

-- How the addresses of a configuration come from the flags: none; the default list; or what the
-- flag lists, split at its commas.
pub data AddressesOf (f : Flags) : Command → Config → Type 0 where
  undiscovered : {c : Config} → c.bootnodes ≡ [] → c.discover ≡ false → AddressesOf f bootnode c
  by_default :
      {cmd : Command} {c : Config}
      → IsDiscovering cmd
      → f.bootnodes ≡ []
      → c.bootnodes ≡ def_bootnodes
      → c.discover ≡ true
      → AddressesOf f cmd c
  listed :
      {cmd : Command} {c : Config}
      → IsDiscovering cmd
      → f.bootnodes ≢ []
      → intercalate 44 c.bootnodes ≡ f.bootnodes
      → AllFree 44 c.bootnodes
      → c.discover ≡ true
      → AddressesOf f cmd c

some_inj : {A : Type 0} (a b : A) → some a ≡ some b → a ≡ b
some_inj a b h = cc

panic_ne_ok : {A : Type 0} (a : A) → panic ≡ ok a → ⊥
panic_ne_ok a h = cc

module _ (my_id : Config → Bytes × Error) where
  homeless : (f : Flags) → beq f.homedir [] ≡ true → achat my_id f ≡ panic
  unfolding achat
  homeless f e = rw e refl

  started : (f : Flags) → beq f.homedir [] ≡ false → achat my_id f ≡ ok (starting my_id f)
  unfolding achat
  started f e = rw e refl

  achat-config : (f : Flags) (st : Started) → achat my_id f ≡ ok st → st.config ≡ config_of f
  achat-config f st e = elim (Bool-cases (beq f.homedir [])) [
    | inl h ↦ absurd (panic_ne_ok st (sym (homeless f h) ∙ e))
    | inr h ↦ ap (λ (x : Started). x.config) (ok_inj st (starting my_id f) (sym e ∙ started f h))
  ]

  AddressesOf-config_of :
      (f : Flags) (cmd : Command)
      → IsDiscovering cmd
      → f.nodiscover ≡ false
      → AddressesOf f cmd (config_of f)
  unfolding config_of
  AddressesOf-config_of f cmd d on = elim (Bool-cases (beq f.bootnodes [])) [
    | inl e ↦ by_default d (beq→eq f.bootnodes [] e) (rw on (rw e refl)) (rw on refl)
    | inr e ↦
        listed d (ne_of_beq f.bootnodes [] e) (rw on (rw e (intercalate-split 44 f.bootnodes)))
          (rw on (rw e (split-AllFree 44 f.bootnodes))) (rw on refl)
  ]

  -- A node that a command starts has no address of a boot node and does not discover if the command is
  -- bootnode; otherwise it discovers, with the default addresses, or with those that the flag lists: what is
  -- between its commas. `nodiscover` is not set before.
  pub node_of-AddressesOf :
      (cmd : Command) (f : Flags) (st : Started)
      → f.nodiscover ≡ false
      → node_of my_id cmd f ≡ some (ok st)
      → AddressesOf f cmd st.config
  unfolding node_of config_of
  node_of-AddressesOf default_command f st on e =
      subst (λ c. AddressesOf f default_command c) (sym (achat-config f st (some_inj _ _ e)))
        (AddressesOf-config_of f default_command tt on)
  node_of-AddressesOf attach f st on e = cc
  node_of-AddressesOf console f st on e =
      subst (λ c. AddressesOf f console c) (sym (achat-config f st (some_inj _ _ e)))
        (AddressesOf-config_of f console tt on)
  node_of-AddressesOf bootnode f st on e =
      subst (λ c. AddressesOf f bootnode c)
        (sym (achat-config (record f { nodiscover = true }) st (some_inj _ _ e)))
        (undiscovered refl refl)
