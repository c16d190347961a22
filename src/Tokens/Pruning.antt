-- ===== src/Tokens/Pruning.antt =====
-- What the pruning of a conversation keeps (crates/cca-daemon/src/tokens.rs).
use cca.Common.{
  ℕ, zero, suc, ◌+◌, ◌-◌, ◌*◌, ◌≤◌, ◌<◌, ◌≡◌, refl, inl, inr, true, false, ◌&&◌, List, [], ◌∷◌,
  ◌++◌, if◌then◌else◌, if-elim, max, leb, leb→le, add_u32, u32_mod, arith, any, length, drop,
  Bool-cases,
}
use cca.Tokens.{
  ConversationMessage, count_message, is_system, prune_one, prune_from, opening, prune_history,
}

-- The tokens of a list, without any bound.
abbrev pub tokens_of : List ConversationMessage → ℕ
tokens_of [] = 0
tokens_of (m ∷ ms) = count_message m + tokens_of ms

tokens_of-append :
    (xs ys : List ConversationMessage) → tokens_of (xs ++ ys) ≡ tokens_of xs + tokens_of ys
tokens_of-append [] ys = omega arith
tokens_of-append (x ∷ xs) ys = omega (arith, tokens_of-append xs ys)

-- What is kept is measured exactly, and fits the bound.
pub record Fits (bound : ℕ) (s : List ConversationMessage × ℕ) : Type 0 where
  pub exact : s.1 ≡ tokens_of s.0
  pub within : s.1 ≤ bound

prune_one-Fits :
    (max_tokens bound : ℕ) (m : ConversationMessage) (s : List ConversationMessage × ℕ)
    → max_tokens ≤ bound
    → s.1 + count_message m < u32_mod
    → Fits bound s
    → Fits bound (prune_one max_tokens m s)
unfolding prune_one
prune_one-Fits max_tokens bound m (kept, current) le small f =
    if-elim (Fits bound) (is_system m && any is_system kept) (λ _. f)
      λ _.
        if-elim (Fits bound) (leb (add_u32 current (count_message m)) max_tokens)
          (λ fits. record {
            exact = omega (arith, small, f.exact, tokens_of-append kept (m ∷ []));
            within = omega (arith, leb→le _ _ fits, le);
          })
          (λ _. f)

prune_one-le :
    (max_tokens : ℕ) (m : ConversationMessage) (s : List ConversationMessage × ℕ)
    → (prune_one max_tokens m s).1 ≤ s.1 + count_message m
unfolding prune_one
prune_one-le max_tokens m (kept, current) =
    let P = λ (r : List ConversationMessage × ℕ). r.1 ≤ current + count_message m in
    if-elim P (is_system m && any is_system kept) (λ _. omega arith)
      λ _.
        if-elim P (leb (add_u32 current (count_message m)) max_tokens) (λ _. omega arith)
          (λ _. omega arith)

prune_from-Fits :
    (max_tokens bound : ℕ) (ms : List ConversationMessage) (s : List ConversationMessage × ℕ)
    → max_tokens ≤ bound
    → s.1 + tokens_of ms < u32_mod
    → Fits bound s
    → Fits bound (prune_from max_tokens ms s)
unfolding prune_from
prune_from-Fits max_tokens bound [] s le small f = f
prune_from-Fits max_tokens bound (m ∷ ms) s le small f =
    prune_from-Fits max_tokens bound ms (prune_one max_tokens m s) le
      (omega (arith, small, prune_one-le max_tokens m s))
      (prune_one-Fits max_tokens bound m s le (omega (arith, small)) f)

tokens_of-drop : (n : ℕ) (ms : List ConversationMessage) → tokens_of (drop n ms) ≤ tokens_of ms
tokens_of-drop zero ms = omega arith
tokens_of-drop (suc n) [] = omega arith
tokens_of-drop (suc n) (m ∷ ms) = omega (arith, tokens_of-drop n ms)

opening-Fits :
    (bound : ℕ) (ms : List ConversationMessage)
    → (opening ms).1 ≤ bound
    → Fits bound (opening ms) × ((opening ms).1 ≤ tokens_of ms)
unfolding opening count_message
opening-Fits bound [] le = (record { exact = refl; within = omega arith }, omega arith)
opening-Fits bound (m ∷ ms) le = elim (Bool-cases (is_system m)) [
  | inl e ↦ rw e (record { exact = omega arith; within = ground (arith, le) }, omega arith)
  | inr e ↦ rw e (record { exact = refl; within = omega arith }, omega arith)
]

-- A pruned conversation has no more tokens than the limit, or than its opening system message
-- where that alone is larger, as long as the tokens of the conversation are less than 2^31.
pub prune_history-fits :
    (messages : List ConversationMessage) (max_tokens keep_recent : ℕ)
    → 2 * tokens_of messages < u32_mod
    → tokens_of (prune_history messages max_tokens keep_recent)
      ≤ max max_tokens (opening messages).1
unfolding prune_history
prune_history-fits messages max_tokens keep_recent small =
    let bound = max max_tokens (opening messages).1 in
    let k = length messages - keep_recent in
    let (start, few) = opening-Fits bound messages (omega arith) in
    let f =
      prune_from-Fits max_tokens bound (drop k messages) (opening messages) (omega arith)
        (omega (arith, small, few, tokens_of-drop k messages)) start in
    omega (arith, f.exact, f.within)

-- How many messages are system messages.
abbrev pub systems : List ConversationMessage → ℕ
systems [] = 0
systems (m ∷ ms) = if is_system m then suc (systems ms) else systems ms

systems-append : (xs ys : List ConversationMessage) → systems (xs ++ ys) ≡ systems xs + systems ys
systems-append [] ys = omega arith
systems-append (x ∷ xs) ys = ground (arith, systems-append xs ys)

systems-none : (xs : List ConversationMessage) → any is_system xs ≡ false → systems xs ≡ 0
unfolding cca.Common.any
systems-none [] h = refl
systems-none (x ∷ xs) h = ground (arith, systems-none xs)

prune_one-systems :
    (max_tokens : ℕ) (m : ConversationMessage) (s : List ConversationMessage × ℕ)
    → systems s.0 ≤ 1
    → systems (prune_one max_tokens m s).0 ≤ 1
unfolding prune_one
prune_one-systems max_tokens m (kept, current) h =
    let P = λ (r : List ConversationMessage × ℕ). systems r.0 ≤ 1 in
    if-elim P (is_system m && any is_system kept) (λ _. h)
      λ allowed.
        if-elim P (leb (add_u32 current (count_message m)) max_tokens)
          (λ _. ground (
            arith,
            systems-append kept (m ∷ []),
            systems-none kept,
            allowed,
            Bool-cases (any is_system kept),
          ))
          (λ _. h)

prune_from-systems :
    (max_tokens : ℕ) (ms : List ConversationMessage) (s : List ConversationMessage × ℕ)
    → systems s.0 ≤ 1
    → systems (prune_from max_tokens ms s).0 ≤ 1
unfolding prune_from
prune_from-systems max_tokens [] s h = h
prune_from-systems max_tokens (m ∷ ms) s h =
    prune_from-systems max_tokens ms (prune_one max_tokens m s) (prune_one-systems max_tokens m s h)

opening-systems : (ms : List ConversationMessage) → systems (opening ms).0 ≤ 1
unfolding opening
opening-systems [] = omega arith
opening-systems (m ∷ ms) =
    if-elim (λ (r : List ConversationMessage × ℕ). systems r.0 ≤ 1) (is_system m)
      (λ e. rw e (omega arith)) (λ e. omega arith)

-- A pruned conversation has at most one system message, wherever the conversation has them.
pub prune_history-one_system :
    (messages : List ConversationMessage) (max_tokens keep_recent : ℕ)
    → systems (prune_history messages max_tokens keep_recent) ≤ 1
unfolding prune_history
prune_history-one_system messages max_tokens keep_recent =
    prune_from-systems max_tokens (drop (length messages - keep_recent) messages) (opening messages)
      (opening-systems messages)
