-- ===== src/Server/BootOrder/Examples.antt =====
-- Runs of the boot order code.
use sheath.Prelude.{
  ◌++◌, arith, [], ◌∷◌, ◌≡◌, refl, codes, to_lower, trim_space, trim_left, is_space, trim_prefix,
  text_eq, any, false,
}
use sheath.Server.BootOrder.Steps.{written, boot_order_steps-restart}
use sheath.Server.BootOrder.{boot_order_steps, boot_order_reaches}

stock_order : boot_order_steps (codes " 0xF25416\n") ≡ 6 ∷ 1 ∷ 4 ∷ 5 ∷ 2 ∷ 15 ∷ []
unfolding boot_order_steps to_lower trim_space trim_left is_space trim_prefix
stock_order = refl

behind_restart : boot_order_reaches (codes "0x6f21") (codes "nvme") ≡ false
unfolding boot_order_reaches to_lower trim_space trim_left is_space trim_prefix text_eq any
behind_restart = refl

boot_order_steps-restart_example :
    boot_order_steps (written (codes "no number ") ((1 ∷ []) ++ 15 ∷ [])) ≡ (1 ∷ []) ++ 15 ∷ []
boot_order_steps-restart_example =
    boot_order_steps-restart (codes "no number ") (1 ∷ []) (omega arith)
