-- ===== src/Groups/Late.antt =====
-- Reads that come late at the dialog of environment groups (Ui/environment-groups.js).
use sql_server_lab.Prelude.{
  ℕ, Bool, true, false, List, [], ◌∷◌, Option, none, some, ◌≡◌, refl, subst, ◌≤◌, ◌<◌,
  if◌then◌else◌, Bool-cases, inl, inr, arith, lt→neq, some_injective,
}
use sql_server_lab.Js.{Value}
use sql_server_lab.Groups.Dialog.{
  Dialog, outdated, begin_read, is_current, settle, end_read, show, close, request_command, Event,
  open_dialog, close_dialog, send_command, bad_input, start_read, answer, started, handle, run,
}

settle-generation : (reply : Option Value) (d : Dialog) → (settle reply d).generation ≡ d.generation
unfolding settle
settle-generation none d = refl
settle-generation (some view) d = ground arith

end_read-generation :
    (generation : ℕ) (reply : Option Value) (d : Dialog)
    → (end_read generation reply d).generation ≡ d.generation
unfolding end_read
end_read-generation generation reply d = elim (Bool-cases (is_current generation d)) [
  | inl e ↦ rw e (settle-generation reply d)
  | inr e ↦ rw e refl
]

begin_read-generation : (d : Dialog) → d.generation ≤ (started d (begin_read d)).generation
unfolding begin_read
begin_read-generation d = elim (Bool-cases d.active_request) [
  | inl e ↦ rw e (omega arith)
  | inr e ↦ rw e (omega arith)
]

close-generation : (d : Dialog) → d.generation ≤ (close d).generation
unfolding close
close-generation d = ground arith

-- A command moves the generation.
command-generation : (d : Dialog) → d.generation < (request_command d).generation
unfolding request_command
command-generation d = ground arith

handle-generation : (e : Event) (d : Dialog) → d.generation ≤ (handle e d).generation
unfolding handle show
handle-generation open_dialog d = omega arith
handle-generation close_dialog d = close-generation d
handle-generation send_command d = omega (arith, command-generation d)
handle-generation bad_input d = omega arith
handle-generation start_read d = begin_read-generation d
handle-generation (answer generation reply) d =
    omega (arith, end_read-generation generation reply d)

run-generation : (es : List Event) (d : Dialog) → d.generation ≤ (run es d).generation
unfolding run
run-generation [] d = omega arith
run-generation (e ∷ es) d = omega (arith, handle-generation e d, run-generation es (handle e d))

begun-generation :
    (d d' : Dialog) (generation : ℕ)
    → begin_read d ≡ some (generation, d')
    → generation ≡ d'.generation
unfolding begin_read
begun-generation d d' generation h = begun d.active_request _ h refl
  where
    begun :
        (active : Bool) (next : ℕ × Dialog)
        → (if active then none else some next) ≡ some (generation, d')
        → next.0 ≡ next.1.generation
        → generation ≡ d'.generation
    begun true next e same = cc
    begun false next e same =
        subst (λ (x : ℕ × Dialog). x.0 ≡ x.1.generation) (some_injective next (generation, d') e)
          same

-- An answer with a generation that has passed.
passed :
    (generation : ℕ) (reply : Option Value) (d : Dialog)
    → generation < d.generation
    → ((end_read generation reply d).list ≡ d.list)
      × ((end_read generation reply d).status ≡ (if d.is_open then outdated else d.status))
unfolding end_read
passed generation reply d h = let e = lt→neq generation d.generation h in ground (arith, e)

-- A read that began before a command was sent lists nothing, whatever happens before and after the
-- command, reads that begin later included, and whatever its answer is: the list stays as it is when
-- the answer comes. A dialog that is open then says that the answer is outdated.
pub outdated_read :
    (d d' : Dialog) (generation : ℕ) (es later : List Event) (reply : Option Value)
    → begin_read d ≡ some (generation, d')
    → ((end_read generation reply (run later (handle send_command (run es d')))).list
        ≡ (run later (handle send_command (run es d'))).list)
      × ((end_read generation reply (run later (handle send_command (run es d')))).status ≡ (
          if (run later (handle send_command (run es d'))).is_open
          then outdated
          else (run later (handle send_command (run es d'))).status))
unfolding handle
outdated_read d d' generation es later reply h =
    let before = run es d' in
    let sent = request_command before in
    passed generation reply (run later sent) (
      omega (
        arith,
        begun-generation d d' generation h,
        run-generation es d',
        command-generation before,
        run-generation later sent,
      ))
