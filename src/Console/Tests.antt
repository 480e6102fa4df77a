-- ===== src/Console/Tests.antt =====
-- Runs of the console.
use burst_kernel_virtual_mac.Base.{
  ℕ, ◌≡◌, refl, true, Option, some, List, [], ◌∷◌, arith, replicate,
}
use burst_kernel_virtual_mac.Libc.Strings.{text}
use burst_kernel_virtual_mac.Vfs.{VfsFile}
use burst_kernel_virtual_mac.Vfs.Open.{AllNamed}
use burst_kernel_virtual_mac.Base.Int.{pos}
use burst_kernel_virtual_mac.Nat.{nat_init}
use burst_kernel_virtual_mac.Console.{Console, Line, cli_autocomplete}
use burst_kernel_virtual_mac.Console.Document.{IsEditing, Edited, editor_handle_key_lem}
use burst_kernel_virtual_mac.Console.Complete.{IsLine, Completed, cli_autocomplete-Completed}

abbrev draft : VfsFile
draft = record {
  name = b'd' ∷ replicate 31 0;
  contents = b'h' ∷ b'i' ∷ replicate 4094 0;
  size = 2;
  is_used = true;
}

abbrev typing : Line
typing = record { buf = b'i' ∷ b'f' ∷ replicate 254 0; idx = 2 }

abbrev at_work : Console
at_work = record {
  files = draft ∷ [];
  current_file = some 0;
  in_editor_mode = true;
  line = typing;
  screen = [];
  router = record { nat = nat_init; routes = record { table = []; num_routes = pos 0 }; macs = [] };
  disk = record { answer = λ lba. []; accesses = [] };
  padding = λ i. 0;
}

abbrev no_command : List ℕ → Console → Option Console
no_command command c = some c

at_work-IsEditing : IsEditing 0 draft at_work
at_work-IsEditing = record {
  mode = refl;
  current = refl;
  open_file = refl;
  fits = refl;
  room = omega arith;
  terminated = refl;
}

editor_handle_key_lem_example : Edited no_command b'!' 0 draft at_work
editor_handle_key_lem_example =
    editor_handle_key_lem no_command b'!' 0 draft at_work (omega arith) at_work-IsEditing

typing-IsLine : IsLine typing
typing-IsLine = record { fits = refl; room = omega arith }

draft_text : text draft.name ≡ some (b'd' ∷ [])
unfolding text
draft_text = refl

drafts-AllNamed : AllNamed (draft ∷ [])
drafts-AllNamed = ((refl, λ used. (b'd' ∷ [], draft_text, omega arith)), tt)

cli_autocomplete-Completed_example : Completed typing (cli_autocomplete (draft ∷ []) 256 typing)
cli_autocomplete-Completed_example =
    cli_autocomplete-Completed (draft ∷ []) typing drafts-AllNamed typing-IsLine
