-- ===== src/Agents/History.antt =====
-- The logs of an `AgentManager` as the recent part of complete histories
-- (crates/cca-daemon/src/agent_manager.rs).
use cca.Common.{
  ℕ, zero, suc, ◌-◌, ◌≤◌, ◌≡◌, refl, sym, ap, ◌∙◌, false, List, [], ◌∷◌, ◌++◌, ℕ_discrete, arith,
  length, drop, length-append, length-drop, if-elim, if_pos, if_neg, if◌then◌else◌, ltb, ltb→lt,
  leb,
}
use mathlib.Core.List.{append_assoc, append-nil}
use cca.Common.Map
use cca.Common.Map.{Map}
use cca.Tokens.{Text}
use cca.Agents.{
  ManagedAgent, LogEntry, push_log, log, log_all, start_entry, result_entries, max_log_entries,
}
use cca.Agents.Calls.{
  Call, spawned, opened, closed, stopped, stopped_all, prepared, finished, noted, cleared,
}

-- The specification: every agent with all entries that were ever logged for it.
abbrev pub Histories : Type 0
Histories = Map ℕ (List LogEntry)

abbrev append : ℕ → List LogEntry → Histories → Histories
append id es h = Map.update ℕ_discrete id (λ old. old ++ es) h

abbrev pub remember : ℕ → (Text → Text) → Call → Histories → Histories
remember limit size (spawned id role) h =
    if leb limit (length h) then h else Map.insert ℕ_discrete id [] h
remember limit size (opened works id) h = h
remember limit size (closed id) h = h
remember limit size (stopped id) h = Map.remove ℕ_discrete id h
remember limit size stopped_all h = []
remember limit size (prepared now id message) h = append id (start_entry now message ∷ []) h
remember limit size (finished now id success output reason) h =
    append id (result_entries size now success output reason) h
remember limit size (noted now id level message) h =
    append id (record { timestamp = now; level = level; message = message } ∷ []) h
remember limit size (cleared id) h = h

abbrev pub remember_all : ℕ → (Text → Text) → List Call → Histories → Histories
remember_all limit size [] h = h
remember_all limit size (c ∷ cs) h = remember_all limit size cs (remember limit size c h)

-- The last 100 entries.
abbrev pub recent : List LogEntry → List LogEntry
recent es = drop (length es - max_log_entries) es

drop-append : (n : ℕ) (xs ys : List LogEntry) → n ≤ length xs → drop n (xs ++ ys) ≡ drop n xs ++ ys
drop-append zero xs ys h = refl
drop-append (suc n) [] ys h = absurd (omega arith)
drop-append (suc n) (x ∷ xs) ys h = drop-append n xs ys (omega arith)

drop-drop : (n : ℕ) (xs : List LogEntry) → drop 1 (drop n xs) ≡ drop (suc n) xs
drop-drop zero [] = refl
drop-drop zero (x ∷ xs) = refl
drop-drop (suc n) [] = refl
drop-drop (suc n) (x ∷ xs) = drop-drop n xs

drop_same : (m n : ℕ) (xs : List LogEntry) → m ≡ n → drop m xs ≡ drop n xs
drop_same m n xs e = ap (λ k. drop k xs) e

not_over : (n : ℕ) → ltb max_log_entries n ≡ false → n ≤ max_log_entries
not_over n e = ground arith

push_log-recent :
    (e : LogEntry) (es : List LogEntry) → push_log e (recent es) ≡ recent (es ++ e ∷ [])
unfolding push_log
push_log-recent e es =
    let n = length es - max_log_entries in
    let kept = drop-append n es (e ∷ []) (omega arith) in
    let len = length-append es (e ∷ []) in
    let size = length-append (recent es) (e ∷ []) in
    if-elim (λ r. r ≡ recent (es ++ e ∷ [])) (ltb max_log_entries (length (recent es ++ e ∷ [])))
      (λ over.
        ap (drop 1) (sym kept)
        ∙ drop-drop n (es ++ e ∷ [])
        ∙ drop_same (suc n) (length (es ++ e ∷ []) - max_log_entries) (es ++ e ∷ [])
            (omega (arith, len, size, length-drop n es, ltb→lt _ _ over)))
      (λ under.
        sym kept
        ∙ drop_same n (length (es ++ e ∷ []) - max_log_entries) (es ++ e ∷ [])
            (omega (arith, len, size, length-drop n es, not_over _ under)))

pub logs-log_all :
    (es : List LogEntry) (a : ManagedAgent) (old : List LogEntry)
    → a.logs ≡ recent old
    → (log_all es a).logs ≡ recent (old ++ es)
unfolding log
logs-log_all [] a old h = h ∙ ap recent (sym (append-nil old))
logs-log_all (e ∷ es) a old h =
    logs-log_all es (log e a) (old ++ e ∷ []) (ap (push_log e) h ∙ push_log-recent e old)
    ∙ ap recent (append_assoc old (e ∷ []) es)

-- The two tables have the same agents in the same order, each with its recent entries.
pub data Keeps : Map ℕ ManagedAgent → Histories → Type 0 where
  nothing : Keeps [] []
  agent :
      {id : ℕ} {a : ManagedAgent} {old : List LogEntry} {m : Map ℕ ManagedAgent} {h : Histories}
      → a.logs ≡ recent old
      → Keeps m h
      → Keeps ((id, a) ∷ m) ((id, old) ∷ h)

pub Keeps-length : (m : Map ℕ ManagedAgent) (h : Histories) → Keeps m h → length m ≡ length h
Keeps-length [] [] k = refl
Keeps-length [] (y ∷ h) k = elim k [ ]
Keeps-length (x ∷ m) [] k = elim k [ ]
Keeps-length (x ∷ m) (y ∷ h) (agent e k) = ap suc (Keeps-length m h k)

pub Keeps-update :
    (id : ℕ) (f : ManagedAgent → ManagedAgent) (g : List LogEntry → List LogEntry)
    (m : Map ℕ ManagedAgent) (h : Histories)
    → ((a : ManagedAgent) (old : List LogEntry) → a.logs ≡ recent old → (f a).logs ≡ recent (g old))
    → Keeps m h
    → Keeps (Map.update ℕ_discrete id f m) (Map.update ℕ_discrete id g h)
unfolding Map.update
Keeps-update id f g [] [] keep k = nothing
Keeps-update id f g [] (y ∷ h) keep k = elim k [ ]
Keeps-update id f g (x ∷ m) [] keep k = elim k [ ]
Keeps-update id f g ((j, a) ∷ m) ((j', old) ∷ h) keep (agent e k) = elim (ℕ_discrete j id) [
  | yes p ↦
      rw (if_pos (ℕ_discrete j id) p _ _, if_pos (ℕ_discrete j id) p _ _)
        (agent (keep a old e) (Keeps-update id f g m h keep k))
  | no p ↦
      rw (if_neg (ℕ_discrete j id) p _ _, if_neg (ℕ_discrete j id) p _ _)
        (agent e (Keeps-update id f g m h keep k))
]

-- A change that leaves the logs as they are.
pub Keeps-change :
    (id : ℕ) (f : ManagedAgent → ManagedAgent) (m : Map ℕ ManagedAgent) (h : Histories)
    → ((a : ManagedAgent) → (f a).logs ≡ a.logs)
    → Keeps m h
    → Keeps (Map.update ℕ_discrete id f m) h
unfolding Map.update
Keeps-change id f [] [] same k = nothing
Keeps-change id f [] (y ∷ h) same k = elim k [ ]
Keeps-change id f (x ∷ m) [] same k = elim k [ ]
Keeps-change id f ((j, a) ∷ m) ((j', old) ∷ h) same (agent e k) = elim (ℕ_discrete j id) [
  | yes p ↦ rw (if_pos (ℕ_discrete j id) p _ _) (agent (same a ∙ e) (Keeps-change id f m h same k))
  | no p ↦ rw (if_neg (ℕ_discrete j id) p _ _) (agent e (Keeps-change id f m h same k))
]

pub Keeps-insert :
    (id : ℕ) (a : ManagedAgent) (m : Map ℕ ManagedAgent) (h : Histories)
    → a.logs ≡ []
    → Keeps m h
    → Keeps (Map.insert ℕ_discrete id a m) (Map.insert ℕ_discrete id [] h)
unfolding Map.insert
Keeps-insert id a [] [] empty k = agent empty nothing
Keeps-insert id a [] (y ∷ h) empty k = elim k [ ]
Keeps-insert id a (x ∷ m) [] empty k = elim k [ ]
Keeps-insert id a ((j, b) ∷ m) ((j', old) ∷ h) empty (agent e k) = elim (ℕ_discrete j id) [
  | yes p ↦ rw (if_pos (ℕ_discrete j id) p _ _, if_pos (ℕ_discrete j id) p _ _) (agent empty k)
  | no p ↦
      rw (if_neg (ℕ_discrete j id) p _ _, if_neg (ℕ_discrete j id) p _ _)
        (agent e (Keeps-insert id a m h empty k))
]

pub Keeps-remove :
    (id : ℕ) (m : Map ℕ ManagedAgent) (h : Histories)
    → Keeps m h
    → Keeps (Map.remove ℕ_discrete id m) (Map.remove ℕ_discrete id h)
unfolding Map.remove
Keeps-remove id [] [] k = nothing
Keeps-remove id [] (y ∷ h) k = elim k [ ]
Keeps-remove id (x ∷ m) [] k = elim k [ ]
Keeps-remove id ((j, b) ∷ m) ((j', old) ∷ h) (agent e k) = elim (ℕ_discrete j id) [
  | yes p ↦
      rw (if_pos (ℕ_discrete j id) p _ _, if_pos (ℕ_discrete j id) p _ _) (Keeps-remove id m h k)
  | no p ↦
      rw (if_neg (ℕ_discrete j id) p _ _, if_neg (ℕ_discrete j id) p _ _)
        (agent e (Keeps-remove id m h k))
]
