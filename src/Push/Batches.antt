-- ===== src/Push/Batches.antt =====
-- The batches of modules/push/push.service.ts: nothing is lost, repeated or reordered, and no batch
-- is larger than Expo takes.
use aalam_security_back.Common.{
  ℕ, zero, suc, ◌≤◌, ◌≡◌, refl, sym, ◌∙◌, ap, List, [], ◌∷◌, ◌++◌, arith, length, take, drop, All,
  take-append-drop,
}
use aalam_security_back.Services.{Services, ExpoReply, unavailable, tickets}
use aalam_security_back.World.{World, PushMessage, Outcome, ok, thrown, after, M, ◌>>◌, running}
use aalam_security_back.Push.{
  expo_batch_size, stale_tokens, clear_tokens, clear_dead_tokens, post_batch, post_loop,
  post_to_expo,
}

-- The messages of the batches in the order of sending; the log has the newest batch first.
abbrev pub in_order : List (List PushMessage) → List PushMessage
in_order [] = []
in_order (b ∷ bs) = in_order bs ++ b

-- What `next` sent besides `before`.
pub record Sent (messages : List PushMessage) (before next : World) : Type 0 where
  pub batches : List (List PushMessage)
  pub logged : next.pushed ≡ batches ++ before.pushed
  pub small : All (λ b. length b ≤ expo_batch_size) batches
  pub complete : in_order batches ≡ messages

append_assoc {ℓ} : {A : Type ℓ} (a b c : List A) → (a ++ b) ++ c ≡ a ++ (b ++ c)
append_assoc [] b c = refl
append_assoc (x ∷ a) b c = rw (append_assoc a b c)

append_nil {ℓ} : {A : Type ℓ} (a : List A) → a ++ [] ≡ a
append_nil [] = refl
append_nil (x ∷ a) = rw (append_nil a)

in_order-append :
    (bs : List (List PushMessage)) (b : List PushMessage)
    → in_order (bs ++ b ∷ []) ≡ b ++ in_order bs
in_order-append [] b = sym (append_nil b)
in_order-append (x ∷ bs) b = rw (in_order-append bs b) (append_assoc b (in_order bs) x)

All-append_one :
    (P : List PushMessage → Type 0) (bs : List (List PushMessage)) (b : List PushMessage)
    → All P bs
    → P b
    → All P (bs ++ b ∷ [])
All-append_one P [] b h p = (p, tt)
All-append_one P (x ∷ bs) b h p = (h.0, All-append_one P bs b h.1 p)

length-take-le : (n : ℕ) (ms : List PushMessage) → length (take n ms) ≤ n
length-take-le zero ms = omega arith
length-take-le (suc n) [] = omega arith
length-take-le (suc n) (m ∷ ms) = omega (arith, length-take-le n ms)

length-drop-le : (n : ℕ) (ms : List PushMessage) → length (drop n ms) ≤ length ms
length-drop-le zero ms = omega arith
length-drop-le (suc n) [] = omega arith
length-drop-le (suc n) (m ∷ ms) = omega (arith, length-drop-le n ms)

module _ (s : Services) where
  clear_tokens-pushed : (ts : List ℕ) (w : World) → (after (clear_tokens s ts w)).pushed ≡ w.pushed
  unfolding clear_tokens running
  clear_tokens-pushed [] w = refl
  clear_tokens-pushed (t ∷ ts) w = refl

  clear_tokens-ok :
      (ts : List ℕ) (w : World) → clear_tokens s ts w ≡ ok tt (after (clear_tokens s ts w))
  unfolding clear_tokens running
  clear_tokens-ok [] w = refl
  clear_tokens-ok (t ∷ ts) w = refl

  clear-pushed :
      (tokens : List ℕ) (r : ExpoReply) (w : World)
      → (after (clear_dead_tokens s tokens r w)).pushed ≡ w.pushed
  unfolding clear_dead_tokens running
  clear-pushed tokens unavailable w = refl
  clear-pushed tokens (tickets ts) w = clear_tokens-pushed (stale_tokens tokens ts) w

  clear-ok :
      (tokens : List ℕ) (r : ExpoReply) (w : World)
      → clear_dead_tokens s tokens r w ≡ ok tt (after (clear_dead_tokens s tokens r w))
  unfolding clear_dead_tokens running
  clear-ok tokens unavailable w = refl
  clear-ok tokens (tickets ts) w = clear_tokens-ok (stale_tokens tokens ts) w

  batch-pushed :
      (b : List PushMessage) (tokens : List ℕ) (w : World)
      → (after (post_batch s b tokens w)).pushed ≡ b ∷ w.pushed
  unfolding post_batch running
  batch-pushed b tokens w = clear-pushed tokens _ _

  batch-ok :
      (b : List PushMessage) (tokens : List ℕ) (w : World)
      → post_batch s b tokens w ≡ ok tt (after (post_batch s b tokens w))
  unfolding post_batch running
  batch-ok b tokens w = clear-ok tokens _ _

  then_batch :
      (b : List PushMessage) (tokens : List ℕ) (k : M (Unit {0})) (w : World)
      → (post_batch s b tokens >> k) w ≡ k (after (post_batch s b tokens w))
  unfolding running
  then_batch b tokens k w =
      ap (λ (o : Outcome (Unit {0})). elim o [ ok _ w' ↦ k w' | thrown e w' ↦ thrown e w' ])
        (batch-ok b tokens w)

  loop-Sent :
      (fuel : ℕ) (ms : List PushMessage) (tokens : List ℕ) (w : World)
      → length ms ≤ fuel
      → Sent ms w (after (post_loop s fuel ms tokens w))
  unfolding post_loop running
  loop-Sent fuel [] tokens w h = record { batches = []; logged = refl; small = tt; complete = refl }
  loop-Sent zero (m ∷ ms) tokens w h = absurd (omega arith)
  loop-Sent (suc fuel) (m ∷ ms) tokens w h =
      let b = take expo_batch_size (m ∷ ms) in
      let t = take expo_batch_size tokens in
      let rest =
        loop-Sent fuel (drop expo_batch_size (m ∷ ms)) (drop expo_batch_size tokens)
          (after (post_batch s b t w)) (omega (arith, length-drop-le 99 ms)) in
      rw
        (then_batch b t
          (post_loop s fuel (drop expo_batch_size (m ∷ ms)) (drop expo_batch_size tokens)) w)
        (record {
          batches = rest.batches ++ b ∷ [];
          logged =
              rest.logged
              ∙ rw (batch-pushed b t w) (sym (append_assoc rest.batches (b ∷ []) w.pushed));
          small = All-append_one _ rest.batches b rest.small (length-take-le 100 (m ∷ ms));
          complete =
              in_order-append rest.batches b
              ∙ rw rest.complete (take-append-drop expo_batch_size (m ∷ ms));
        })

  -- The messages of a push go out in batches of at most a hundred that, put together in the order of
  -- sending, are the messages: none is lost, repeated or reordered, whatever Expo answers.
  pub post_to_expo-Sent :
      (messages : List PushMessage) (tokens : List ℕ) (w : World)
      → Sent messages w (after (post_to_expo s messages tokens w))
  unfolding post_to_expo
  post_to_expo-Sent messages tokens w = loop-Sent (length messages) messages tokens w (omega arith)
