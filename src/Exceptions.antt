-- ===== src/Exceptions.antt =====
-- threadx-app/cross/app/src/threadx/exceptions.rs: the exception handlers, which hand interrupts to
-- the kernel and to the drivers of NetX.
use threadx_rust.Base.{◌==◌, if◌then◌else◌}
use threadx_rust.App.Payload.{ℤ, pos, negsuc}

-- What the kernel and NetX do on an interrupt.
pub record InterruptApi (K : Type 0) : Type 0 where
  pub tx_timer_interrupt : K → K
  pub tx_pendsv_handler : K → K
  pub sdio_irq_handler : K → K
  pub dmi2str3_handler : K → K

module _ {K : Type 0} (os : InterruptApi K) where
  unfoldable pub sys_tick : K → K
  sys_tick k = os.tx_timer_interrupt k

  unfoldable pub pend_sv : K → K
  pend_sv k = os.tx_pendsv_handler k

  -- `DefaultHandler`, for an interrupt number of 16 bits with a sign.
  unfoldable pub default_handler : (irqn : ℤ) → K → K
  default_handler (negsuc n) k = k
  default_handler (pos n) k =
      if n == 49 then os.sdio_irq_handler k else if n == 59 then os.dmi2str3_handler k else k
