-- ===== src/Rpc/Sending.antt =====
-- "sendmsg" of rpc/server.go: a message whose words come as the parameters of a request.
use mathlib.Core.List.{append_assoc}
use go_achat_node.Prelude.{
  ◌≡◌, refl, ap, ◌∙◌, none, List, [], ◌∷◌, ◌++◌, map, Bytes, codes, beq, ltb_ℤ, ℤ, pos, true, some,
  ok, Exec,
}
use go_achat_node.Types.{Jid, Message, new_normal_message}
use go_achat_node.Rpc.Routing.{intercalate, intercalate-split}
use go_achat_node.Rpc.{
  text, Req, string, new_rsp, Node, RpcFn, Services, find, issued, split, join, x2str, sendmsg,
  send_text, sent, call, handle_rpc,
}

join-intercalate : (l : List Bytes) → join l ≡ intercalate 32 l
unfolding join intercalate
join-intercalate [] = refl
join-intercalate (s ∷ []) = refl
join-intercalate (s ∷ s' ∷ l) =
    append_assoc s (codes " ") (join (s' ∷ l))
    ∙ ap (λ (r : Bytes). s ++ 32 ∷ r) (join-intercalate (s' ∷ l))

-- `strings.Join` undoes `strings.Split`.
pub join-split : (s : Bytes) → join (split 32 s) ≡ s
join-split s = join-intercalate (split 32 s) ∙ intercalate-split 32 s

x2str-map_text : (O : Type 0) (words : List Bytes) → x2str {O = O} (map text words) ≡ ok words
unfolding x2str
x2str-map_text O [] = refl
x2str-map_text O (w ∷ words) = rw (x2str-map_text O words) refl

module _ {O S : Type 0} (send : Message → Exec S (Unit {0})) (myid : Jid) (uuid : Bytes) (now : ℤ)
    (fn_reg : List (Bytes × RpcFn O S)) (services : Services O S) where
  -- A request for "sendmsg" with a valid token sends the words, joined by blanks.
  pub sendmsg-words :
      (req : Req O) (n : Node S) (to : Jid) (words : List Bytes) (t : S)
      → find fn_reg (codes "sendmsg") ≡ some (sendmsg send myid uuid now)
      → ltb_ℤ (pos 0) (issued n.tokens req.token) ≡ true
      → req.method ≡ codes "sendmsg"
      → req.params ≡ text to ∷ map text words
      → send (new_normal_message uuid now myid to (join words) []) n.world ≡ (ok tt, t)
      → handle_rpc fn_reg services req n
        ≡ (ok (new_rsp req.id (string (codes "success")) none), record n { world = t })
  unfolding handle_rpc call sendmsg send_text sent beq
  sendmsg-words req n to words t there valid is params done =
      rw is (rw valid (rw (there, call) (rw params (rw (x2str-map_text O words) (rw done refl)))))
