-- ===== src/Messages/Queue.antt =====
-- process/communication/msg/msg.c: what is received, and what is left behind.
use learn_c_linux.Prelude.{
  ℕ, ◌≡◌, ◌≢◌, refl, ◌∙◌, Bool, true, false, ◌||◌, ◌==◌, none, some, List, [], ◌∷◌, ◌++◌, arith,
}
use learn_c_linux.Prelude.Int.{ℤ, pos, negsuc}
use learn_c_linux.Sys.{
  Answer, returned, refused, Prog, done, on_minus_one, ◌>>◌, run, returned_by, obeys, honest, final,
}
use learn_c_linux.Sys.Rule.{Safe, Safe-bind, Safe-on_minus_one, Safe-obeys}
use learn_c_linux.Messages.Kernel.{
  Queues, MsgCall, silence, has_message, is_minus_one, update, created,
}
use learn_c_linux.Messages.{msg_show_attr, remove, main}

abbrev Anything : Queues → ℤ → Type 0
Anything _ _ = Unit

show-Safe :
    (read_type : ℕ → ℕ) (s : Queues) (msg_id : ℤ) (k : Prog MsgCall)
    → Safe (silence read_type) s k Anything
    → Safe (silence read_type) s (msg_show_attr msg_id >> k) Anything
unfolding msg_show_attr
show-Safe read_type s msg_id k h = (
  refl,
  λ ret _.
      Safe-bind (silence read_type) s (on_minus_one ret.res (done (pos 0)) (done (pos 0))) _
        Anything (Safe-on_minus_one (silence read_type) s ret.res _ _ _ (λ _. h) (λ _. h)),
)

remove-Safe :
    (read_type : ℕ → ℕ) (s : Queues) (msg_id : ℤ)
    → Safe (silence read_type) s (remove msg_id) Anything
unfolding remove
remove-Safe read_type s msg_id = show-Safe read_type s msg_id _ (
  refl,
  λ ret _.
      Safe-on_minus_one (silence read_type) s ret.res _ _ Anything (λ _. tt)
        λ _. show-Safe read_type s msg_id _ (
          refl,
          λ ret' _.
              Safe-on_minus_one (silence read_type) _ ret'.res _ _ Anything (λ _. tt) (λ _. tt),
        ),
)

-- After one message no message of another type waits.
no_message :
    (read_type : ℕ → ℕ) (made sent id id' : ℤ)
    → read_type 10 ≢ 20
    → has_message
        (update (created none made) id sent λ types. some (types ++ (read_type 10 ∷ [])))
        id'
        20
      ≡ false
no_message read_type (negsuc k) sent id id' apart = refl
no_message read_type (pos k) sent id id' apart = ground (arith, apart)

or_minus_one : (b : Bool) (z : ℤ) → b ≡ false → b || is_minus_one z ≡ true → z ≡ negsuc 0
or_minus_one b z h fair = ground (arith, h, fair)

main-Safe : (read_type : ℕ → ℕ) → read_type 10 ≢ 20 → Safe (silence read_type) none main Anything
unfolding main
main-Safe read_type apart =
    let p = silence read_type in
    (
      refl,
      λ _ _. (
        refl,
        λ id _.
            Safe-on_minus_one p _ id.res _ _ Anything (λ _. tt)
              λ _. show-Safe read_type _ id.res _ (
                refl,
                λ snd _. show-Safe read_type _ id.res _ (
                  refl,
                  λ ret fair.
                      Safe-on_minus_one p _ ret.res _ _ Anything
                        (λ _. remove-Safe read_type _ id.res)
                        λ ok. absurd (
                          ok (
                            or_minus_one _ ret.res
                              (no_message read_type id.res snd.res id.res id.res apart) fair)),
                ),
              ),
      ),
    )

-- Where the kernel does not read the type of the message that is sent as 20, `main` never receives it: it never
-- prints that it did.
pub main-obeys-silence :
    (read_type : ℕ → ℕ) (tape : List Answer)
    → read_type 10 ≢ 20
    → honest (silence read_type) none (run main tape) ≡ true
    → obeys (silence read_type) none (run main tape) ≡ true
main-obeys-silence read_type tape apart fair =
    Safe-obeys (silence read_type) none main Anything tape (main-Safe read_type apart) fair

same : (k : ℕ) → (k == k) ≡ true
same k = ground arith

-- The attributes are printed or not, and the program goes on.
returned_by-show :
    (msg_id : ℤ) (m : Prog MsgCall) (a : Answer) (tape : List Answer)
    → returned_by (msg_show_attr msg_id >> m) (a ∷ tape) ≡ returned_by m tape
unfolding msg_show_attr
returned_by-show msg_id m a tape = ground arith

final-show :
    (read_type : ℕ → ℕ) (s : Queues) (msg_id : ℤ) (m : Prog MsgCall) (a : Answer)
    (tape : List Answer)
    → final (silence read_type) s (run (msg_show_attr msg_id >> m) (a ∷ tape))
      ≡ final (silence read_type) s (run m tape)
unfolding msg_show_attr
final-show read_type s msg_id m a tape = ground arith

-- When its attributes cannot be set `main` returns 0, and the queue, with the message that it sent, is left.
pub main-leaves_queue :
    (read_type : ℕ → ℕ) (k : ℕ) (key a b c : Answer)
    → let tape = key ∷ returned (pos k) ∷ a ∷ returned (pos 0) ∷ b ∷ refused ∷ c ∷ refused ∷ [] in
      (returned_by main tape ≡ some (pos 0))
      × (final (silence read_type) none (run main tape) ≡ some (k, read_type 10 ∷ []))
unfolding main remove
main-leaves_queue read_type k key a b c = (
  returned_by-show (pos k) _ a _
      ∙ (returned_by-show (pos k) _ b _ ∙ returned_by-show (pos k) _ c _),
  final-show read_type _ (pos k) _ a _
      ∙ (final-show read_type _ (pos k) _ b _
          ∙ (final-show read_type _ (pos k) _ c _ ∙ ground arith)),
)
