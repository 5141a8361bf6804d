-- ===== src/Rpc/Storing.antt =====
-- What the address book of rpc/user.go keeps.
use go_achat_node.Prelude.{
  ◌<◌, ◌≡◌, inl, inr, refl, sym, ap, ◌∙◌, false, Bool-cases, ◌&&◌, none, some, List, [], ◌∷◌, Bytes,
  codes, beq, beq_refl, length, if◌then◌else◌, Outcome, ok, Error, arith,
}
use go_achat_node.Ldb.{Database}
use go_achat_node.Ldb.Laws.{DatabaseLaws}
use go_achat_node.Types.{peerid}
use go_achat_node.Types.Codecs.{CodecLaws, to_bytes_lem}
use go_achat_node.Group.Members.{decode}
use go_achat_node.Mailbox.Intrusion.{short_peerid}
use go_achat_node.Rpc.{Param, text, Req, RspError, User, string, user, Rsp, new_rsp, failed, Node}
use go_achat_node.Rpc.Users.{
  UserCodecs, put_user, get_user, user_of, user_put, user_get, user_del, put_parsed, written,
}

-- The key of a user: the peer id of its JID, or the id of its group.
abbrev pub address : User → Bytes
address u = if beq u.id [] then u.gid else peerid u.id

none_ne_some : {e : RspError} → none ≡ some e → ⊥
none_ne_some h = cc

module _ {O S : Type 0} (db : Database S) (laws : DatabaseLaws db) (codecs : UserCodecs O)
    (format : CodecLaws codecs.stored (λ u. u)) where
  abbrev pub kept : User → S → S
  kept u s = laws.stored s (address u) (CodecLaws.image format u)

  put_user-eq :
      (u : User) (s : S)
      → (beq u.id [] && beq u.gid []) ≡ false
      → put_user db codecs u s ≡ (ok tt, kept u s)
  unfolding put_user
  put_user-eq u s h = elim (Bool-cases (beq u.id [])) [
    | inl e ↦
        (let g : beq u.gid [] ≡ false = ground arith in
          rw (e, g, to_bytes_lem format u)
            (laws.put_eq u.gid (CodecLaws.image format u) s ∙ rw (e, kept) refl))
    | inr e ↦
        rw (e, to_bytes_lem format u)
          (laws.put_eq (peerid u.id) (CodecLaws.image format u) s ∙ rw (e, kept) refl)
  ]

  get-kept : (u : User) (s : S) → get_user db codecs (kept u s) (address u) ≡ ok u
  unfolding get_user
  get-kept u s =
      ap (decode codecs.stored)
        (laws.get-stored s (address u) (CodecLaws.image format u) (address u))
      ∙ rw (beq_refl (address u), CodecLaws.unmarshal-image format u) refl

  put_parsed-eq :
      (id : Bytes) (u : User) (n : Node S)
      → (beq u.id [] && beq u.gid []) ≡ false
      → put_parsed db codecs id (u, none) n
        ≡ (ok (new_rsp id (string (codes "success")) none), record n { world = kept u n.world })
  unfolding put_parsed written
  put_parsed-eq id u n named = rw named (rw (put_user-eq u n.world named) refl)

  pub user_put-eq :
      (p : Param O) (req : Req O) (n : Node S) (u : User)
      → req.params ≡ p ∷ []
      → user_of db codecs p ≡ (u, none)
      → (beq u.id [] && beq u.gid []) ≡ false
      → user_put db codecs req n
        ≡ (ok (new_rsp req.id (string (codes "success")) none), record n { world = kept u n.world })
  unfolding user_put
  user_put-eq p req n u params parsed named = rw (params, parsed) (put_parsed-eq req.id u n named)

  pub user_get-kept :
      (ask : Req O) (n : Node S) (u : User)
      → ask.params ≡ text (address u) ∷ []
      → user_get db codecs ask (record n { world = kept u n.world })
        ≡ (ok (new_rsp ask.id (user u) none), record n { world = kept u n.world })
  unfolding user_get
  user_get-kept ask n u key = rw key (rw (get-kept u n.world) refl)

  -- A user with an id or a group id that the first parameter of user_put holds is stored with
  -- success, and user_get with the user's key then answers with that user.
  pub user_put-user_get :
      (p : Param O) (req ask : Req O) (n : Node S) (u : User)
      → req.params ≡ p ∷ []
      → user_of db codecs p ≡ (u, none)
      → (beq u.id [] && beq u.gid []) ≡ false
      → ask.params ≡ text (address u) ∷ []
      → let (answer, n') = user_put db codecs req n in
        (answer ≡ ok (new_rsp req.id (string (codes "success")) none))
        × (user_get db codecs ask n' ≡ (ok (new_rsp ask.id (user u) none), n'))
  user_put-user_get p req ask n u params parsed named key =
      rw (user_put-eq p req n u params parsed named) (refl, user_get-kept ask n u key)

  put_parsed_refused :
      (id : Bytes) (r : User × Error) (n : Node S) (rsp : Rsp) (e : RspError)
      → (put_parsed db codecs id r n).0 ≡ ok rsp
      → rsp.error ≡ some e
      → (put_parsed db codecs id r n).1 ≡ n
  unfolding put_parsed new_rsp
  put_parsed_refused id (u, some e') n rsp e h refused = refl
  put_parsed_refused id (u, none) n rsp e h refused =
      elim (Bool-cases (beq u.id [] && beq u.gid [])) [
        | inl e' ↦ rw e' refl
        | inr e' ↦
            (let won = ap (λ (x : Outcome Rsp × Node S). x.0) (put_parsed-eq id u n e') in
              let same : ok (new_rsp id (string (codes "success")) none) ≡ ok rsp = sym won ∙ h in
              let no_error : new_rsp id (string (codes "success")) none ≡ rsp = cc in
              let clash : none ≡ some e = ap (λ (x : Rsp). x.error) no_error ∙ refused in
              absurd (none_ne_some clash))
      ]

  -- Whatever the request, when user_put answers with an error the address book is as it was.
  pub user_put_refused :
      (req : Req O) (n : Node S) (rsp : Rsp) (e : RspError)
      → (user_put db codecs req n).0 ≡ ok rsp
      → rsp.error ≡ some e
      → (user_put db codecs req n).1 ≡ n
  unfolding user_put
  user_put_refused req n rsp e answered refused = go req.params answered
    where
      go :
          (ps : List (Param O))
          → (user_put db codecs (record req { params = ps }) n).0 ≡ ok rsp
          → (user_put db codecs (record req { params = ps }) n).1 ≡ n
      go [] h = refl
      go (p ∷ ps) h = put_parsed_refused req.id (user_of db codecs p) n rsp e h refused

  -- user_del with a key succeeds, and user_get with that key is then answered with the error 20002.
  pub user_del-user_get :
      (key : Bytes) (req ask : Req O) (n : Node S)
      → req.params ≡ text key ∷ []
      → ask.params ≡ text key ∷ []
      → let (answer, n') = user_del db codecs req n in
        (answer ≡ ok (new_rsp req.id (string (codes "success")) none))
        × (user_get db codecs ask n' ≡ (ok (failed ask.id (codes "20002") laws.not_found), n'))
  unfolding user_del written user_get get_user
  user_del-user_get key req ask n params key' =
      rw (params, key')
        (rw (laws.delete_eq key n.world)
          (refl, rw (laws.get-removed n.world key key) (rw (beq_refl key) refl)))

  -- Two users whose ids are not empty and shorter than a peer id have one key: the second put
  -- replaces the first user.
  pub put_user_collides :
      (u v : User) (s : S)
      → beq u.id [] ≡ false
      → beq v.id [] ≡ false
      → length u.id < 53
      → length v.id < 53
      → get_user db codecs (put_user db codecs v (put_user db codecs u s).1).1 (address u) ≡ ok v
  put_user_collides u v s nu nv su sv =
      let one : address u ≡ address v =
        rw (nu, nv, short_peerid u.id su, short_peerid v.id sv) refl in
      rw (put_user-eq u s (rw nu refl), put_user-eq v (kept u s) (rw nv refl), one)
        (get-kept v (kept u s))
