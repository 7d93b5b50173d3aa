-- ===== src/System/UpdateLaws.antt =====
-- `device_update` of src/device/device.c on the state that it shares with the processor.
use gs_emu.Base.{
  ℕ, ◌≤◌, ◌≡◌, ◌==◌, ◌%◌, ◌^◌, subst, sym, ap, Bool, true, false, ◌&&◌, not, Bool-cases, some,
  Option-cases, List, [], ◌∷◌, inl, inr, arith,
}
use gs_emu.Riscv.Machine.{RunState}
use gs_emu.Cpu.Run.{is_running}
use gs_emu.Device.SetupLaws.{some_inj}
use gs_emu.Device.Keyboard.{Keys, key_none, key_enqueue, send_key}
use gs_emu.Device.KeyboardLaws.{IsQueue, Enqueued, key_enqueue-Enqueued}
use gs_emu.Device.Clock.{
  Event, closed, other, key_down, key_up, Update, poll_events, device_update, too_early,
  vga_update_screen, clint_update,
}

key_enqueue-IsQueue : (c : ℕ) (k l : Keys) → IsQueue k → key_enqueue c k ≡ some l → IsQueue l
key_enqueue-IsQueue c k l h e = (subst (Enqueued c k) e (key_enqueue-Enqueued c k h)).0

send_key-IsQueue :
    (keymap : ℕ → ℕ) (st : RunState) (scancode : ℕ) (down : Bool) (k l : Keys)
    → IsQueue k
    → send_key keymap st scancode down k ≡ some l
    → IsQueue l
unfolding send_key
send_key-IsQueue keymap st scancode down k l h e =
    elim (Bool-cases (is_running st && not (keymap scancode == key_none))) [
      | inl sent ↦ key_enqueue-IsQueue _ k l h (rw (send_key, sent) at e)
      | inr ignored ↦ subst IsQueue (some_inj (rw (send_key, ignored) at e)) h
    ]

poll_events-IsQueue :
    (keymap : ℕ → ℕ) (es : List Event) (u v : Update)
    → IsQueue u.keys
    → poll_events keymap es u ≡ some v
    → IsQueue v.keys × (v.frame_count ≡ u.frame_count)
unfolding poll_events
poll_events-IsQueue keymap [] u v h e =
    let same = some_inj e in
    (subst (λ x. IsQueue x.keys) same h, ap (λ x. x.frame_count) (sym same))
poll_events-IsQueue keymap (closed ∷ es) u v h e = poll_events-IsQueue keymap es _ v h e
poll_events-IsQueue keymap (other ∷ es) u v h e = poll_events-IsQueue keymap es u v h e
poll_events-IsQueue keymap (key_down k ∷ es) u v h e =
    elim (Option-cases (send_key keymap u.state (k % 2 ^ 8) true u.keys)) [
      | inl bad ↦ ground (arith, bad)
      | inr (q, good) ↦
          let kept = send_key-IsQueue keymap u.state (k % 2 ^ 8) true u.keys q h good in
          poll_events-IsQueue keymap es (record u { keys = q }) v kept (rw (poll_events, good) at e)
    ]
poll_events-IsQueue keymap (key_up k ∷ es) u v h e =
    elim (Option-cases (send_key keymap u.state (k % 2 ^ 8) false u.keys)) [
      | inl bad ↦ ground (arith, bad)
      | inr (q, good) ↦
          let kept = send_key-IsQueue keymap u.state (k % 2 ^ 8) false u.keys q h good in
          poll_events-IsQueue keymap es (record u { keys = q }) v kept (rw (poll_events, good) at e)
    ]

-- An update that returns keeps the key queue in its array and the frame counter at most 24.
pub device_update-keeps :
    (keymap : ℕ → ℕ) (clint_base now : ℕ) (es : List Event) (u v : Update)
    → IsQueue u.keys
    → u.frame_count ≤ 24
    → device_update keymap clint_base now es u ≡ some v
    → IsQueue v.keys × (v.frame_count ≤ 24)
unfolding device_update vga_update_screen
device_update-keeps keymap clint_base now es u v h f e =
    elim (Bool-cases (too_early keymap now u.last)) [
      | inl early ↦
          let same = some_inj (rw (device_update, early) at e) in
          (subst (λ x. IsQueue x.keys) same h, subst (λ x. x.frame_count ≤ 24) same f)
      | inr due ↦
          let polled =
            poll_events-IsQueue keymap es
              (record u {
                last = now;
                frame_count = vga_update_screen u.frame_count;
                space = clint_update clint_base u.space;
              })
              v h (rw (device_update, due) at e) in
          let low : vga_update_screen u.frame_count ≤ 24 = ground arith in
          (polled.0, rw (polled.1) low)
    ]
