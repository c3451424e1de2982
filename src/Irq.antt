-- ===== src/Irq.antt =====
-- src/kernel/irq: interrupts.
pub mod Bh
