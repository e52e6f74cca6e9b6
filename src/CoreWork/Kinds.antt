-- ===== src/CoreWork/Kinds.antt =====
-- src/database/core_work.rs: the names under which the kinds of work are stored.
use Prim.Native.String.{String}
use text.Mathlib.Text.{◌==◌ as str_eq}
use text.Mathlib.TextEquality.{eq_iff}
use mail_subsystem.Prelude.{
  ◌≡◌, refl, ◌↔◌, inl, inr, true, Option, some, arith, Bool-cases, if◌then◌else◌,
}
use mail_subsystem.CoreWork.{
  CoreWorkType, sync_full, sync_incremental, sync_body, analyze, embed, locate, file_preview,
  file_apply, assistant_heartbeat, subagent_task, as_str, from_str, same_type,
}

pub from_str-as_str : (t : CoreWorkType) → from_str (as_str t) ≡ some t
unfolding from_str as_str
from_str-as_str sync_full = refl
from_str-as_str _ = refl

-- One test of the ladder: the text is this name, or the answer comes from the tests behind it.
read :
    (s : String) (u t : CoreWorkType) (rest : Option CoreWorkType)
    → (if str_eq s (as_str u) then some u else rest) ≡ some t
    → (rest ≡ some t → s ≡ as_str t)
    → s ≡ as_str t
read s u t rest h k = elim (Bool-cases (str_eq s (as_str u))) [
  | inl e ↦
      let taken : some u ≡ some t = rw e at h in
      let same : u ≡ t = cc in rw (← same) ((eq_iff s (as_str u)).0 e)
  | inr e ↦ k (rw e at h)
]

from_str-some : (s : String) (t : CoreWorkType) → from_str s ≡ some t → s ≡ as_str t
unfolding from_str as_str
from_str-some s t h0 = read s sync_full t _ h0 λ h1. read s sync_incremental t _ h1 λ h2.
    read s sync_body t _ h2 λ h3. read s analyze t _ h3 λ h4. read s embed t _ h4 λ h5.
      read s locate t _ h5 λ h6. read s file_preview t _ h6 λ h7. read s file_apply t _ h7 λ h8.
        read s assistant_heartbeat t _ h8
          λ h9. read s subagent_task t _ h9 λ h10. absurd (ground arith)

-- A text is read as a kind of work exactly if it is the name under which that kind is stored.
pub from_str_iff : (s : String) (t : CoreWorkType) → (from_str s ≡ some t) ↔ (s ≡ as_str t)
from_str_iff s t = (from_str-some s t, λ e. rw e (from_str-as_str t))

pub same_type_iff : (a b : CoreWorkType) → (same_type a b ≡ true) ↔ (a ≡ b)
same_type_iff a b = ground arith
