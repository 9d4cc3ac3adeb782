-- ===== src/Logging/Bounds.antt =====
-- What the ring of src-tauri/src/logging/buffer.rs holds after any sequence of writes.
use clash_verge_buty.Prelude.{
  suc, ◌+◌, ◌-◌, ◌≤◌, String, ◌≡◌, List, [], ◌∷◌, ◌++◌, arith, length, drop, length-append,
  append_assoc, append-nil, ◌∙◌,
}
use clash_verge_buty.Logging.{logs_queue_len, set_log, clear_log, log_all}

full_step :
    (xs ts : List String) (x t : String)
    → length (x ∷ xs) ≡ logs_queue_len
    → drop (length (xs ++ t ∷ []) + length ts - logs_queue_len) ((xs ++ t ∷ []) ++ ts)
      ≡ drop (length (x ∷ xs) + length (t ∷ ts) - logs_queue_len) (x ∷ (xs ++ t ∷ ts))
full_step xs ts x t h =
    let before : length (xs ++ t ∷ []) + length ts - logs_queue_len ≡ length ts =
      omega (arith, length-append xs (t ∷ [])) in
    let after : length (x ∷ xs) + length (t ∷ ts) - logs_queue_len ≡ suc (length ts) =
      omega arith in
    rw (before, after) (rw append_assoc)

room_step :
    (logs ts : List String) (t : String)
    → drop (length (logs ++ t ∷ []) + length ts - logs_queue_len) ((logs ++ t ∷ []) ++ ts)
      ≡ drop (length logs + length (t ∷ ts) - logs_queue_len) (logs ++ t ∷ ts)
room_step logs ts t =
    let same : length (logs ++ t ∷ []) + length ts - logs_queue_len
        ≡ length logs + length (t ∷ ts) - logs_queue_len =
      omega (arith, length-append logs (t ∷ [])) in
    rw same (rw append_assoc)

set_log-length :
    (t : String) (logs : List String)
    → length logs ≤ logs_queue_len
    → length (set_log t logs) ≤ logs_queue_len
unfolding set_log
set_log-length t [] h = omega arith
set_log-length t (x ∷ xs) h =
    ground (arith, length-append xs (t ∷ []), length-append (x ∷ xs) (t ∷ []))

set_log_step :
    (t : String) (logs ts : List String)
    → length logs ≤ logs_queue_len
    → drop (length (set_log t logs) + length ts - logs_queue_len) (set_log t logs ++ ts)
      ≡ drop (length logs + length (t ∷ ts) - logs_queue_len) (logs ++ t ∷ ts)
unfolding set_log
set_log_step t [] ts h = room_step [] ts t
set_log_step t (x ∷ xs) ts h = ground (arith, full_step xs ts x t, room_step (x ∷ xs) ts t)

-- From a ring of at most 100 lines, any sequence of writes leaves the last 100 of the lines held
-- and written, in order, and never more than 100.
pub log_all-last_lines :
    (logs ts : List String)
    → length logs ≤ logs_queue_len
    → (log_all logs ts ≡ drop (length logs + length ts - logs_queue_len) (logs ++ ts))
      × (length (log_all logs ts) ≤ logs_queue_len)
unfolding log_all
log_all-last_lines logs [] h =
    let none_dropped : length logs + 0 - logs_queue_len ≡ 0 = omega arith in
    (rw (none_dropped, append-nil), h)
log_all-last_lines logs (t ∷ ts) h =
    let rest = log_all-last_lines (set_log t logs) ts (set_log-length t logs h) in
    (rest.0 ∙ set_log_step t logs ts h, rest.1)

-- Whatever was logged before `clear_log` never shows again: what is held afterwards is the last
-- 100 of the lines written since.
pub clear_log-forgets :
    (logs ts : List String) → log_all (clear_log logs) ts ≡ drop (length ts - logs_queue_len) ts
unfolding clear_log
clear_log-forgets logs ts = (log_all-last_lines [] ts (omega arith)).0 ∙ simp zero_len
  where
    zero_len : 0 + length ts ≡ length ts
    zero_len = omega arith
