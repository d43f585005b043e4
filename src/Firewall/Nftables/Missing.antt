-- ===== src/Firewall/Nftables/Missing.antt =====
-- The nftables backend on a node that does not have the agent's table.
use bulb.Base.{
  ◌≡◌, refl, false, List, Text, codes, is_empty, trim_space, contains_text, some, ap, ◌∙◌,
  Bool-cases, inl, inr,
}
use bulb.Base.Result.{Error, err}
use bulb.Firewall.Ports.{PortSpec}
use bulb.Firewall.Commands.{Exec, exec_runner, command_error, run_combined, combined}
use bulb.Firewall.Nftables.{list_table_args, is_nft_no_such_table, apply_listed, apply}

module _ {S : Type 0} (exec : Exec S) where
  listed_lem :
      (m : Text) (desired : List PortSpec) (s : S)
      → is_empty (trim_space m) ≡ false
      → contains_text (codes "table inet bulb_firewall_agent {") m ≡ false
      → (e : Error) × (apply_listed (exec_runner exec) m desired s ≡ (s, err e))
  unfolding apply_listed
  listed_lem m desired s blank absent = rw (blank, absent) (_, refl)

  output_lem :
      (s : S) (output : Text) (e : Error)
      → (exec (codes "") list_table_args s).1 ≡ (output, some e)
      → (exec_runner exec).output list_table_args s ≡ err (command_error list_table_args e output)
  unfolding exec_runner run_combined
  output_lem s output e h = ap (combined list_table_args) h

  error_output_lem :
      (s : S) (output : Text) (e : Error)
      → (exec (codes "") list_table_args s).1 ≡ (output, some e)
      → (exec_runner exec).error_output list_table_args s ≡ trim_space output
  unfolding exec_runner run_combined
  error_output_lem s output e h = ap (λ r. trim_space r.0) h

  -- Where the listing of the table fails with a message, and the message does not hold the table's
  -- text, which no table gives nft, a call fails and changes nothing, also where the message says
  -- that there is no such table. So on a node without the table no call opens a port.
  pub apply-missing_table :
      (s : S) (output m : Text) (e : Error)
      → (exec (codes "") list_table_args s).1 ≡ (output, some e)
      → trim_space output ≡ m
      → is_empty (trim_space m) ≡ false
      → contains_text (codes "table inet bulb_firewall_agent {") m ≡ false
      → (desired : List PortSpec)
      → (e' : Error) × (apply (exec_runner exec) desired s ≡ (s, err e'))
  unfolding apply
  apply-missing_table s output m e listed trimmed blank absent desired =
      let failed' : (exec_runner exec).output list_table_args s
          ≡ err (command_error list_table_args e output) =
        output_lem s output e listed in
      let message = error_output_lem s output e listed ∙ trimmed in
      elim (Bool-cases (is_nft_no_such_table (command_error list_table_args e output))) [
        | inl missing ↦ rw (failed', apply, missing, message) (listed_lem m desired s blank absent)
        | inr other ↦ rw (failed', apply, other) (_, refl)
      ]
