-- ===== src/Tests.antt =====
-- Concrete inputs: the theorems applied, and runs of the code.
mod Samples
mod Envelopes
mod Checks
mod Quotas
mod Cells
mod Rivals
mod Fences
mod Pages
mod Models
mod Workers
mod Drives
mod World
mod Deliveries
mod Github
mod Origins
mod Environments
mod Repairs
mod Bodies
mod Requests
mod Tables
