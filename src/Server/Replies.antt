-- ===== src/Server/Replies.antt =====
-- From the requests to the broker: what `server_manage::handle_msg_func` queues, and what the thread
-- `client_manage::sent_business_func` then hands over.
use mathlib.Core.List.{append_assoc, append-nil}
use rundo_dahua_sdk_edge.Common.{
  ◌≡◌, refl, Each, chain-Each, Each-map, ap, sym, ◌∙◌, ℕ, ◌+◌, ◌≤◌, List, [], ◌∷◌, ◌++◌, String,
  length, length-append, arith,
}
use rundo_dahua_sdk_edge.Mq.{Amqp, Mq, Call}
use rundo_dahua_sdk_edge.Client.{Client}
use rundo_dahua_sdk_edge.Gateway.{get_msg_type}
use rundo_dahua_sdk_edge.Client.Send.{sent_business_rounds}
use rundo_dahua_sdk_edge.Client.Send.Drained.{texts}
use rundo_dahua_sdk_edge.Client.Send.Delivered.{IsServed, sent_business_rounds-served}
use rundo_dahua_sdk_edge.Server.{Server, Around}
use rundo_dahua_sdk_edge.Server.Dispatch.{handle_msg, handle_all}
use rundo_dahua_sdk_edge.Server.Answers.{SameLink, limit}
use rundo_dahua_sdk_edge.Server.Answers.Least.{Answered, least, handle_msg-Answered}

-- How many texts the requests may add, and how many they add in any case.
unfoldable pub limits : List (Around × String) → ℕ
limits [] = 0
limits ((a, msg) ∷ rs) = limit (get_msg_type a.parse msg) + limits rs

unfoldable pub leasts : List (Around × String) → ℕ
leasts [] = 0
leasts ((a, msg) ∷ rs) = least (get_msg_type a.parse msg) + leasts rs

trans_link : (c d e : Client) → SameLink c d → SameLink d e → SameLink c e
trans_link c d e g h = record {
  client_type = h.client_type ∙ g.client_type;
  republic = h.republic ∙ g.republic;
  send_mq = h.send_mq ∙ g.send_mq;
}

IsServed-link : (amqp : Amqp) (c d : Client) → IsServed amqp c → SameLink c d → IsServed amqp d
IsServed-link amqp c d v h =
    let on = λ (f : Mq → ℕ). ap f h.send_mq in
    record {
      rabbit = h.client_type ∙ v.rabbit;
      settled = h.republic ∙ v.settled;
      connected = λ z. v.connected (sym (on (λ m. m.conn)) ∙ z);
      opened = λ z. v.opened (sym (on (λ m. m.channel_id)) ∙ z);
      taken = v.taken;
      answered = λ t. v.answered t ∙ sym (on (λ m. m.channel));
      acked = v.acked;
    }

Answered-trans :
    (k l m n : ℕ) (s s' s'' : Server)
    → Answered k m s s'
    → Answered l n s' s''
    → Answered (k + l) (m + n) s s''
Answered-trans k l m n s s' s'' g h =
    let both = length-append g.adds.texts h.adds.texts in
    record {
      adds = record {
        texts = g.adds.texts ++ h.adds.texts;
        behind =
            h.adds.behind
            ∙ ap (λ l. l ++ h.adds.texts) g.adds.behind
            ∙ append_assoc s.client.business_msg_list g.adds.texts h.adds.texts;
        few = omega (arith, g.adds.few, h.adds.few, both);
        link = trans_link s.client s'.client s''.client g.adds.link h.adds.link;
      };
      many = omega (arith, g.many, h.many, both);
    }

-- The texts that a sequence of requests added, and what becomes of all texts that then wait: each is
-- published once, and none waits any more.
pub record Replied (m n : ℕ) (amqp : Amqp) (t : List Call) (s s' : Server) : Type 0 where
  pub replies : List String
  pub many : m ≤ length replies
  pub few : length replies ≤ n
  pub published :
      let queued = s.client.business_msg_list ++ replies in
      texts (sent_business_rounds amqp (length queued) s'.client t).1 ≡ texts t ++ queued
  pub emptied :
      let queued = s.client.business_msg_list ++ replies in
      (sent_business_rounds amqp (length queued) s'.client t).0.business_msg_list ≡ []

handle_all-Answered :
    (rs : List (Around × String)) (s : Server)
    → Each (Answered (leasts rs) (limits rs) s) (handle_all rs s)
unfolding handle_all limits leasts
handle_all-Answered [] s = record {
  adds = record {
    texts = [];
    behind = sym (append-nil s.client.business_msg_list);
    few = omega arith;
    link = record { client_type = refl; republic = refl; send_mq = refl };
  };
  many = omega arith;
}
handle_all-Answered ((a, msg) ∷ rs) s =
    let type = get_msg_type a.parse msg in
    let m = least type in
    let n = limit type in
    chain-Each (Answered m n s) (Answered (m + leasts rs) (n + limits rs) s) (handle_msg a msg s)
      (handle_all rs)
      (λ s₁ h.
        Each-map (Answered (leasts rs) (limits rs) s₁) (Answered (m + leasts rs) (n + limits rs) s)
          (handle_all rs s₁) (λ s₂. Answered-trans m (leasts rs) n (limits rs) s s₁ s₂ h)
          (handle_all-Answered rs s₁))
      (handle_msg-Answered a msg s)

-- While the broker takes and acknowledges each message, after any sequence of requests the sending
-- thread publishes the messages that waited before and then the replies to the requests, each exactly
-- once and in the order in which they were queued, and the list is then empty. The number of replies
-- lies between the sums of what the requests' types add at least and at most.
pub handle_all-Replied :
    (rs : List (Around × String)) (s : Server) (amqp : Amqp) (t : List Call)
    → IsServed amqp s.client
    → Each (Replied (leasts rs) (limits rs) amqp t s) (handle_all rs s)
handle_all-Replied rs s amqp t served =
    Each-map (Answered (leasts rs) (limits rs) s) (Replied (leasts rs) (limits rs) amqp t s)
      (handle_all rs s)
      (λ s' h.
        let sent =
          sent_business_rounds-served amqp (s.client.business_msg_list ++ h.adds.texts) s'.client t
            (IsServed-link amqp s.client s'.client served h.adds.link) h.adds.behind in
        record {
          replies = h.adds.texts;
          many = h.many;
          few = h.adds.few;
          published = sent.0;
          emptied = sent.1;
        })
      (handle_all-Answered rs s)
